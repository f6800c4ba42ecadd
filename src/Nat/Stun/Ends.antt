-- ===== src/Nat/Stun/Ends.antt =====
-- The search ends on every response; and the responses on which it panics.
use decentis.Prelude.{
  ℕ, zero, suc, ◌+◌, ◌*◌, ◌≤◌, ◌<◌, Bool, true, false, List, [], ◌∷◌, ◌++◌, Option, some, length,
  drop, ltb, ◌==◌, if◌then◌else◌, ◌≡◌, refl, sym, ◌∙◌, arith, length-append, length-take, take,
  drop-length_append, append_assoc,
}
use decentis.Nat.Stun.{
  StunAnswers, timed_out, Received, datagram, late, broken, await_response, discover_public_ip,
  SocketAddr, StunResult, ok, err, panicked, unexpected_type, index, u16_at, u32_at, mapped_address,
  Round, stop, next, attribute_round, find_address, parse_response,
}
use decentis.Nat.Stun.Parse.{
  Attribute, attribute_bytes, attributes_bytes, AllOther, find_address-skip,
}
use decentis.Nat.Stun.Offsets.{u16_at-drop, u32_at-drop, index-drop, in_range}

-- A round that goes on is inside the response, and goes on four bytes or more further.
attribute_round-next :
    (response : List ℕ) (offset following : ℕ)
    → attribute_round response offset ≡ next following
    → (offset + 4 ≤ length response) × (offset + 4 ≤ following)
unfolding attribute_round
attribute_round-next response offset following e = ground arith

find_address_total :
    (fuel : ℕ) (response : List ℕ) (offset : ℕ)
    → 0 < fuel
    → length response < offset + 4 * fuel
    → (result : StunResult SocketAddr) × (find_address fuel response offset ≡ some result)
unfolding find_address
find_address_total zero response offset pos enough = absurd (omega arith)
find_address_total (suc fuel) response offset pos enough =
    by_round (λ following more less. find_address_total fuel response following more less)
      (attribute_round response offset) refl
  where
    by_round :
        ((following : ℕ)
          → 0 < fuel
          → length response < following + 4 * fuel
          → (result : StunResult SocketAddr) × (find_address fuel response following ≡ some result))
        → (r : Round) → attribute_round response offset ≡ r
        → (result : StunResult SocketAddr) × ((elim r [
          | stop x ↦ some x
          | next following ↦ find_address fuel response following
        ])
            ≡ some result)
    by_round later (stop x) e = (x, refl)
    by_round later (next following) e =
        let inside = attribute_round-next response offset following e in
        later following (omega arith) (omega arith)

abbrev Returns : Option (StunResult SocketAddr) → Type 0
Returns o = (result : StunResult SocketAddr) × (o ≡ some result)

Returns-if :
    (b : Bool) {x y : Option (StunResult SocketAddr)}
    → Returns x
    → Returns y
    → Returns (if b then x else y)
Returns-if true hx hy = hx
Returns-if false hx hy = hy

-- On every response the parser returns: one round for each four bytes behind the header is enough.
parse_response_total :
    (fuel : ℕ) (response : List ℕ)
    → 0 < fuel
    → length response < 20 + 4 * fuel
    → (result : StunResult SocketAddr) × (parse_response fuel (some response) ≡ some result)
unfolding parse_response
parse_response_total fuel response pos enough =
    Returns-if (ltb (length response) 20) (_, refl) (by_type (u16_at response 0))
  where
    by_type :
        (t : StunResult ℕ)
        → Returns (elim t [
          | panicked ↦ some panicked
          | err e ↦ some (err e)
          | ok msg_type ↦
              if msg_type == 0x0101
              then find_address fuel response 20
              else some (err (unexpected_type msg_type))
        ])
    by_type panicked = (_, refl)
    by_type (err e) = (_, refl)
    by_type (ok msg_type) =
        Returns-if (msg_type == 0x0101) (find_address_total fuel response 20 pos enough) (_, refl)

-- The value of an address attribute that breaks off too early: before the family, or inside an
-- address of the IPv4 family.
abbrev pub IsTruncated : List ℕ → Type 0
IsTruncated [] = Unit {0}
IsTruncated (reserved ∷ []) = Unit {0}
IsTruncated (reserved ∷ family ∷ value) = (family ≡ 1) × (length value < 6)

mapped_address-drop :
    (response : List ℕ) (offset : ℕ) (s : List ℕ)
    → drop offset response ≡ s
    → mapped_address response (offset + 4) ≡ mapped_address s 4
unfolding mapped_address
mapped_address-drop response offset s at = ground (
  arith,
  index-drop response offset s at (offset + 4 + 1) (4 + 1) (omega arith),
  u16_at-drop response offset s at (offset + 4 + 2) (4 + 2) (omega arith),
  u32_at-drop response offset s at (offset + 4 + 4) (4 + 4) (omega arith),
)

mapped_address-truncated :
    (a b c d : ℕ) (value : List ℕ)
    → IsTruncated value
    → mapped_address (a ∷ b ∷ c ∷ d ∷ value) 4 ≡ panicked
unfolding mapped_address index u16_at u32_at
mapped_address-truncated a b c d [] h = refl
mapped_address-truncated a b c d (r ∷ []) h = refl
mapped_address-truncated a b c d (r ∷ f ∷ []) h = rw h.0 refl
mapped_address-truncated a b c d (r ∷ f ∷ p ∷ []) h = rw h.0 refl
mapped_address-truncated a b c d (r ∷ f ∷ p ∷ q ∷ []) h = rw h.0 refl
mapped_address-truncated a b c d (r ∷ f ∷ p ∷ q ∷ s ∷ []) h = rw h.0 refl
mapped_address-truncated a b c d (r ∷ f ∷ p ∷ q ∷ s ∷ t ∷ []) h = rw h.0 refl
mapped_address-truncated a b c d (r ∷ f ∷ p ∷ q ∷ s ∷ t ∷ u ∷ []) h = rw h.0 refl
mapped_address-truncated a b c d (r ∷ f ∷ p ∷ q ∷ s ∷ t ∷ u ∷ v ∷ more) h =
    absurd (omega (arith, h.1))

find_address-truncated :
    (fuel : ℕ) (response : List ℕ) (offset : ℕ) (c d : ℕ) (value : List ℕ)
    → IsTruncated value
    → drop offset response ≡ 0 ∷ 0x20 ∷ c ∷ d ∷ value
    → find_address (suc fuel) response offset ≡ some panicked
unfolding find_address attribute_round
find_address-truncated fuel response offset c d value short at = ground (
  arith,
  fits,
  kind,
  size,
  mapped_address-drop response offset (0 ∷ 0x20 ∷ c ∷ d ∷ value) at,
  mapped_address-truncated 0 0x20 c d value short,
)
  where
    fits : offset + 4 ≤ length response
    fits = in_range response offset (0 ∷ 0x20 ∷ c ∷ d ∷ value) at 4 (omega arith) (omega arith)

    kind : u16_at response offset ≡ ok 0x0020
    kind =
        u16_at-drop response offset (0 ∷ 0x20 ∷ c ∷ d ∷ value) at offset 0 (omega arith)
        ∙ unfold u16_at index in refl

    size : u16_at response (offset + 2) ≡ ok (c * 256 + d)
    size =
        u16_at-drop response offset (0 ∷ 0x20 ∷ c ∷ d ∷ value) at (offset + 2) 2 refl
        ∙ unfold u16_at index in refl

-- Whatever the socket does, `discover_public_ip` comes to an end, with an address, an error, or a
-- panic: it never runs out of rounds. It does not panic unless a datagram arrives.
pub discover_public_ip_total :
    (a : StunAnswers)
    → (result : StunResult SocketAddr) × ((discover_public_ip a).0 ≡ some result)
      × (result ≡ panicked → (bytes : List ℕ) × (a.arrives ≡ datagram bytes))
unfolding discover_public_ip await_response
discover_public_ip_total a = by_answers a.bound a.connected a.sends a.arrives
  where
    by_answers :
        (bound connected sends : Bool) (arrives : Received)
        → let a1 : StunAnswers = record {
          bound = bound;
          connected = connected;
          sends = sends;
          transaction_id = a.transaction_id;
          arrives = arrives;
        } in
          (result : StunResult SocketAddr) × ((discover_public_ip a1).0 ≡ some result)
          × (result ≡ panicked → (bytes : List ℕ) × (arrives ≡ datagram bytes))
    by_answers false connected sends arrives = (_, refl, λ e. cc)
    by_answers true false sends arrives = (_, refl, λ e. cc)
    by_answers true true false arrives = (_, refl, λ e. cc)
    by_answers true true true (datagram bytes) =
        let (result, returned) =
          parse_response_total 256 (take 1024 bytes) (omega arith)
            (omega (arith, length-take 1024 bytes)) in
        (result, returned, λ e. (bytes, refl))
    by_answers true true true late = (err timed_out, unfold parse_response in refl, λ e. cc)
    by_answers true true true broken = (_, refl, λ e. cc)

find_address-attributes_truncated :
    (attributes : List Attribute) (fuel : ℕ) (response : List ℕ) (offset c d : ℕ) (value : List ℕ)
    → AllOther attributes
    → IsTruncated value
    → length attributes < fuel
    → drop offset response ≡ attributes_bytes attributes ++ (0 ∷ 0x20 ∷ c ∷ d ∷ value)
    → find_address fuel response offset ≡ some panicked
find_address-attributes_truncated attributes zero response offset c d value others short enough at =
    absurd (omega arith)
find_address-attributes_truncated [] (suc fuel) response offset c d value others short enough at =
    find_address-truncated fuel response offset c d value short at
find_address-attributes_truncated (a ∷ rest) (suc fuel) response offset c d value others short
      enough at =
    let (further, skipped, after) =
      find_address-skip fuel response offset a (attributes_bytes rest ++ (0 ∷ 0x20 ∷ c ∷ d ∷ value))
        others.0
        (at
          ∙ append_assoc (attribute_bytes a) (attributes_bytes rest) (0 ∷ 0x20 ∷ c ∷ d ∷ value)) in
    skipped
    ∙ find_address-attributes_truncated rest fuel response further c d value others.1 short
        (omega arith) after

-- A success answer whose address attribute, behind any attributes of other types, breaks off too
-- early makes the parser panic: its indices into the response are not checked against the length.
-- Fuel above the number of those attributes is enough.
pub parse_response-truncated :
    (fuel : ℕ) (header : List ℕ) (attributes : List Attribute) (c d : ℕ) (value : List ℕ)
    → length header ≡ 18
    → AllOther attributes
    → IsTruncated value
    → length attributes < fuel
    → parse_response fuel
        (some (1 ∷ 1 ∷ (header ++ (attributes_bytes attributes ++ (0 ∷ 0x20 ∷ c ∷ d ∷ value)))))
      ≡ some panicked
unfolding parse_response
parse_response-truncated fuel header attributes c d value eighteen others short enough =
    ground (arith, kind, long, searched)
  where
    body : List ℕ
    body = attributes_bytes attributes ++ (0 ∷ 0x20 ∷ c ∷ d ∷ value)

    response : List ℕ
    response = 1 ∷ 1 ∷ (header ++ body)

    kind : u16_at response 0 ≡ ok 0x0101
    kind = unfold u16_at index in refl

    long : 20 ≤ length response
    long = omega (arith, length-append header body)

    searched : find_address fuel response 20 ≡ some panicked
    searched =
        find_address-attributes_truncated attributes fuel response 20 c d value others short enough
          (drop-length_append 18 header body (sym eighteen))
