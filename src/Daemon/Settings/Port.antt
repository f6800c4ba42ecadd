-- ===== src/Daemon/Settings/Port.antt =====
-- Which texts of PORT make an address, and how the other parser reads them.
use decentis.Prelude.{
  ℕ, ◌+◌, ◌-◌, ◌*◌, ◌≤◌, ◌<◌, true, false, List, [], ◌∷◌, Option, some, none, ◌==◌, ◌≡◌, ◌≢◌, ◌↔◌,
  inl, inr, refl, sym, ◌∙◌, arith, Bool-cases,
}
use decentis.Nat.Stun.{SocketAddr}
use decentis.Daemon.Settings.{
  ◌>>=◌, is_digit, read_digits, read_number, at_end, bind_addr, parse_u16, local_port,
}

abbrev pub AreDigits : List ℕ → Type 0
AreDigits [] = Unit {0}
AreDigits (c ∷ cs) = (is_digit c ≡ true) × AreDigits cs

-- The number that decimal digits stand for, behind those of `n`.
abbrev pub value_from : ℕ → List ℕ → ℕ
value_from n [] = n
value_from n (c ∷ cs) = value_from (n * 10 + (c - b'0')) cs

value_from-ge : (n : ℕ) (cs : List ℕ) → n ≤ value_from n cs
value_from-ge n [] = omega arith
value_from-ge n (c ∷ cs) = omega (arith, value_from-ge (n * 10 + (c - b'0')) cs)

-- All of the text is digits, and their number is within the limit.
read_digits-all :
    (limit n m : ℕ) (cs : List ℕ)
    → n ≤ limit
    → ((read_digits limit n cs >>= at_end) ≡ some m)
      ↔ (AreDigits cs × (value_from n cs ≤ limit) × (m ≡ value_from n cs))
unfolding read_digits
read_digits-all limit n m [] h = ground arith
read_digits-all limit n m (c ∷ cs) h = ground (
  arith,
  value_from-ge (n * 10 + (c - b'0')) cs,
  read_digits-all limit (n * 10 + (c - b'0')) m cs,
)

port_number :
    (text : List ℕ) (m : ℕ)
    → ((read_number 65535 true text >>= at_end) ≡ some m)
      ↔ ((text ≢ []) × AreDigits text × (value_from 0 text ≤ 65535) × (m ≡ value_from 0 text))
unfolding read_number
port_number [] m = (λ e. cc, λ h. absurd (h.0 refl))
port_number (c ∷ cs) m = elim (Bool-cases (is_digit c)) [
  | inl digit ↦ rw digit (
      let all = read_digits-all 65535 0 m (c ∷ cs) (omega arith) in
      (
        (λ e. let (digits, fits, same) = all.0 e in ((λ none. cc), (refl, digits.1), fits, same)),
        (λ h. all.1 ((digit, h.1.1), h.2, h.3)),
      ))
  | inr other ↦ rw other ((λ e. cc), (λ h. cc (h.1.0)))
]

bind_addr-eq :
    (text : List ℕ)
    → bind_addr text
      ≡ ((read_number 65535 true text >>= at_end) >>= λ port. some (record { port = port; ip = 0 }))
unfolding bind_addr
bind_addr-eq text = refl

parse_u16-digits :
    (text : List ℕ)
    → text ≢ []
    → AreDigits text
    → value_from 0 text ≤ 65535
    → parse_u16 text ≡ some (value_from 0 text)
unfolding parse_u16
parse_u16-digits [] some_text digits fits = absurd (some_text refl)
parse_u16-digits (c ∷ []) some_text digits fits =
    (read_digits-all 65535 0 _ (c ∷ []) (omega arith)).1 (digits, fits, refl)
parse_u16-digits (c ∷ d ∷ ds) some_text digits fits =
    let no_plus : (c == b'+') ≡ false = ground (arith, digits.0) in
    rw no_plus ((read_digits-all 65535 0 _ (c ∷ d ∷ ds) (omega arith)).1 (digits, fits, refl))

-- Digits alone are read alike by both parsers.
local_port-digits :
    (text : List ℕ)
    → text ≢ []
    → AreDigits text
    → value_from 0 text ≤ 65535
    → local_port text ≡ value_from 0 text
unfolding local_port
local_port-digits text some_text digits fits =
    rw (parse_u16-digits text some_text digits fits, local_port)

-- The text of PORT makes an address exactly if it is one digit or more, and nothing else, with a
-- value below 65536; the address then has that port, on all interfaces. The parsing for the router
-- and the signaling server reads the same port from it, so it never falls back on its default
-- for a text that makes an address.
pub bind_addr-local_port :
    (text : List ℕ) (addr : SocketAddr)
    → (bind_addr text ≡ some addr) ↔ (
        (text ≢ [])
        × AreDigits text
        × (value_from 0 text < 65536)
        × (addr.ip ≡ 0)
        × (addr.port ≡ value_from 0 text)
        × (local_port text ≡ addr.port))
bind_addr-local_port text addr = (
  (λ e. there_by (read_number 65535 true text >>= at_end) refl (sym (bind_addr-eq text) ∙ e)),
  (λ h. bind_addr-eq text ∙ back h),
)
  where
    there_by :
        (o : Option ℕ)
        → (read_number 65535 true text >>= at_end) ≡ o
        → (o >>= λ port. some (record { port = port; ip = 0 })) ≡ some addr
        → (text ≢ [])
          × AreDigits text
          × (value_from 0 text < 65536)
          × (addr.ip ≡ 0)
          × (addr.port ≡ value_from 0 text)
          × (local_port text ≡ addr.port)
    there_by none e same = cc
    there_by (some m) e same =
        let (some_text, digits, fits, is) = (port_number text m).0 e in
        let port : m ≡ addr.port = ground arith in
        (
          some_text,
          digits,
          omega arith,
          ground arith,
          omega arith,
          local_port-digits text some_text digits fits ∙ sym is ∙ port,
        )

    back :
        (text ≢ [])
          × AreDigits text
          × (value_from 0 text < 65536)
          × (addr.ip ≡ 0)
          × (addr.port ≡ value_from 0 text)
          × (local_port text ≡ addr.port)
        → ((read_number 65535 true text >>= at_end) >>= λ port.
            some (record { port = port; ip = 0 }))
          ≡ some addr
    back h =
        let number = (port_number text addr.port).1 (h.0, h.1, omega arith, h.4) in
        rw number (ground arith)
