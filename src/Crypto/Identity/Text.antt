-- ===== src/Crypto/Identity/Text.antt =====
-- The text of an IPv4 address, as `Ipv4Addr::to_string` of the standard library writes it: the
-- daemon's registry of peers has it as its keys.
use decentis.Prelude.{
  ℕ, ◌+◌, ◌/◌, ◌%◌, ◌<◌, List, [], ◌∷◌, ◌++◌, ltb, if◌then◌else◌, ◌≡◌, ◌≢◌, arith,
}
use decentis.Crypto.Identity.{Ipv4Addr}

-- A byte in decimal.
unfoldable pub decimal : ℕ → List ℕ
decimal n =
    if ltb n 10
    then (b'0' + n) ∷ []
    else (if ltb n 100
        then (b'0' + n / 10) ∷ (b'0' + n % 10) ∷ []
        else (b'0' + n / 100) ∷ (b'0' + n / 10 % 10) ∷ (b'0' + n % 10) ∷ [])

unfoldable pub ip_to_string : Ipv4Addr → List ℕ
ip_to_string ip =
    decimal ip.a ++ (b'.' ∷ (decimal ip.b ++ (b'.' ∷ (decimal ip.c ++ (b'.' ∷ decimal ip.d)))))

abbrev pub HasNoDot : List ℕ → Type 0
HasNoDot [] = Unit {0}
HasNoDot (c ∷ cs) = (c ≢ b'.') × HasNoDot cs

pub decimal-HasNoDot : (n : ℕ) → HasNoDot (decimal n)
unfolding decimal
decimal-HasNoDot n = ground arith

decimal_injective : (m n : ℕ) → m < 256 → n < 256 → decimal m ≡ decimal n → m ≡ n
unfolding decimal
decimal_injective m n hm hn e = ground arith

-- What stands before the first dot, and what stands behind it.
split_at_dot :
    (xs ys r s : List ℕ)
    → HasNoDot xs
    → HasNoDot ys
    → xs ++ (b'.' ∷ r) ≡ ys ++ (b'.' ∷ s)
    → (xs ≡ ys) × (r ≡ s)
split_at_dot [] [] r s hx hy e = ground arith
split_at_dot [] (y ∷ ys) r s hx hy e = absurd (ground arith)
split_at_dot (x ∷ xs) [] r s hx hy e = absurd (ground arith)
split_at_dot (x ∷ xs) (y ∷ ys) r s hx hy e = ground (arith, split_at_dot xs ys r s hx.1 hy.1)

abbrev pub IsIpv4 : Ipv4Addr → Type 0
IsIpv4 ip = (ip.a < 256) × (ip.b < 256) × (ip.c < 256) × (ip.d < 256)

-- Addresses whose octets are bytes have different texts if they are different.
pub ip_to_string_injective :
    (ip ip' : Ipv4Addr) → IsIpv4 ip → IsIpv4 ip' → ip_to_string ip ≡ ip_to_string ip' → ip ≡ ip'
unfolding ip_to_string
ip_to_string_injective ip ip' h h' e =
    let (ea, e1) =
      split_at_dot (decimal ip.a) (decimal ip'.a) _ _ (decimal-HasNoDot ip.a)
        (decimal-HasNoDot ip'.a) e in
    let (eb, e2) =
      split_at_dot (decimal ip.b) (decimal ip'.b) _ _ (decimal-HasNoDot ip.b)
        (decimal-HasNoDot ip'.b) e1 in
    let (ec, ed) =
      split_at_dot (decimal ip.c) (decimal ip'.c) _ _ (decimal-HasNoDot ip.c)
        (decimal-HasNoDot ip'.c) e2 in
    ground (
      arith,
      decimal_injective ip.a ip'.a h.0 h'.0 ea,
      decimal_injective ip.b ip'.b h.1 h'.1 eb,
      decimal_injective ip.c ip'.c h.2 h'.2 ec,
      decimal_injective ip.d ip'.d h.3 h'.3 ed,
    )
