-- ===== src/Daemon/Settings.antt =====
-- What `main` of daemon/src/main.rs makes of the variable PORT: the address of the endpoint and the
-- port that is told to the router and to the signaling server. The parsers are those of the
-- standard library, on the bytes of a text.
pub mod Port
use decentis.Prelude.{
  ℕ, ◌+◌, ◌-◌, ◌*◌, ◌^◌, Bool, true, false, not, ◌&&◌, List, [], ◌∷◌, ◌++◌, Option, some, none, ltb,
  leb, ◌==◌, if◌then◌else◌,
}
use decentis.Nat.Stun.{SocketAddr}

-- "51820"
abbrev pub default_port_text : List ℕ
default_port_text = b'5' ∷ b'1' ∷ b'8' ∷ b'2' ∷ b'0' ∷ []

-- `env::var("PORT").unwrap_or_else(...)`: `none` if it is not set, or no text.
abbrev pub port_text : Option (List ℕ) → List ℕ
port_text none = default_port_text
port_text (some text) = text

infixl 5 ◌>>=◌
abbrev pub ◌>>=◌ : {A B : Type 0} → Option A → (A → Option B) → Option B
none >>= k = none
some a >>= k = k a

abbrev pub is_digit : ℕ → Bool
is_digit c = leb b'0' c && leb c b'9'

-- The digits at the start of a text, after those that make `n`: their value, if it does not pass
-- the limit, and what stands behind them.
unfoldable pub read_digits : ℕ → ℕ → List ℕ → Option (ℕ × List ℕ)
read_digits limit n [] = some (n, [])
read_digits limit n (c ∷ cs) =
    let more = n * 10 + (c - b'0') in
    let rest = read_digits limit more cs in
    if is_digit c then (if ltb limit more then none else rest) else some (n, c ∷ cs)

abbrev starts_with_digit : List ℕ → Bool
starts_with_digit [] = false
starts_with_digit (c ∷ cs) = is_digit c

-- `Parser::read_number`: there is a digit, and the first one is no superfluous zero. An octet has
-- at most three digits, which its limit already says of a number without such a zero.
unfoldable pub read_number : ℕ → Bool → List ℕ → Option (ℕ × List ℕ)
read_number limit allow_zero_prefix [] = none
read_number limit allow_zero_prefix (c ∷ cs) =
    if is_digit c
    then (if not allow_zero_prefix && (c == b'0' && starts_with_digit cs)
        then none
        else read_digits limit 0 (c ∷ cs))
    else none

unfoldable pub read_given : ℕ → List ℕ → Option (List ℕ)
read_given c [] = none
read_given c (d ∷ ds) = if c == d then some ds else none

abbrev pub at_end : ℕ × List ℕ → Option ℕ
at_end (n, []) = some n
at_end (n, c ∷ cs) = none

-- `str::parse::<SocketAddr>` where the text starts with no bracket, so that only IPv4 is in
-- question.
unfoldable pub parse_socket_addr : List ℕ → Option SocketAddr
unfolding read_digits read_number read_given
parse_socket_addr text = do
  (a, t1) ← read_number 255 false text
  t2 ← read_given b'.' t1
  (b, t3) ← read_number 255 false t2
  t4 ← read_given b'.' t3
  (c, t5) ← read_number 255 false t4
  t6 ← read_given b'.' t5
  (d, t7) ← read_number 255 false t6
  t8 ← read_given b':' t7
  port ← read_number 65535 true t8 >>= at_end
  some (record { port = port; ip = a * 2 ^ 24 + b * 2 ^ 16 + c * 2 ^ 8 + d })

-- `format!("0.0.0.0:{}", port).parse()`
unfoldable pub bind_addr : List ℕ → Option SocketAddr
unfolding parse_socket_addr
bind_addr port = parse_socket_addr (b'0' ∷ b'.' ∷ b'0' ∷ b'.' ∷ b'0' ∷ b'.' ∷ b'0' ∷ b':' ∷ port)

-- `str::parse::<u16>`: a plus may stand before the digits.
unfoldable pub parse_u16 : List ℕ → Option ℕ
parse_u16 [] = none
parse_u16 (c ∷ []) = read_digits 65535 0 (c ∷ []) >>= at_end
parse_u16 (c ∷ d ∷ ds) =
    if c == b'+'
    then read_digits 65535 0 (d ∷ ds) >>= at_end
    else read_digits 65535 0 (c ∷ d ∷ ds) >>= at_end

-- `port.parse::<u16>().unwrap_or(51820)`
unfoldable pub local_port : List ℕ → ℕ
unfolding read_digits parse_u16
local_port port = elim (parse_u16 port) [ none ↦ 51_820 | some n ↦ n ]
