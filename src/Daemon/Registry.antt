-- ===== src/Daemon/Registry.antt =====
-- The registry is a map: its keys differ, and a lookup gives the last connection registered.
use decentis.Prelude.{
  ℕ, Bool, true, false, List, [], ◌∷◌, some, if◌then◌else◌, ◌≡◌, refl, arith, Bool-cases, inl, inr,
}
use decentis.Daemon.{Connection, PeerRegistry, same, get, remove, insert}

pub same_refl : (xs : List ℕ) → same xs xs ≡ true
same_refl [] = refl
same_refl (x ∷ xs) = ground (arith, same_refl xs)

pub same-eq : (xs ys : List ℕ) → same xs ys ≡ true → xs ≡ ys
same-eq [] [] e = refl
same-eq [] (y ∷ ys) e = ground arith
same-eq (x ∷ xs) [] e = ground arith
same-eq (x ∷ xs) (y ∷ ys) e = ground (arith, same-eq xs ys)

-- Every key of the registry has the property.
abbrev pub AllKeys : (List ℕ → Type 0) → PeerRegistry → Type 0
AllKeys P [] = Unit {0}
AllKeys P ((key, conn) ∷ rest) = P key × AllKeys P rest

remove-AllKeys :
    (P : List ℕ → Type 0) (peers : PeerRegistry) (vip : List ℕ)
    → AllKeys P peers
    → AllKeys P (remove peers vip)
unfolding remove
remove-AllKeys P [] vip a = tt
remove-AllKeys P ((key, conn) ∷ rest) vip a = by_same (same key vip) (remove-AllKeys P rest vip a.1)
  where
    by_same :
        (b : Bool)
        → AllKeys P (remove rest vip)
        → AllKeys P (if b then remove rest vip else (key, conn) ∷ remove rest vip)
    by_same true later = later
    by_same false later = (a.0, later)

pub get-AllKeys :
    (P : List ℕ → Type 0) (peers : PeerRegistry) (vip : List ℕ) {conn : Connection}
    → AllKeys P peers
    → get peers vip ≡ some conn
    → P vip
unfolding get
get-AllKeys P [] vip a e = absurd (ground arith)
get-AllKeys P ((key, held) ∷ rest) vip {conn} a e = elim (Bool-cases (same key vip)) [
  | inl hit ↦ rw (same-eq key vip hit) at a.0
  | inr miss ↦ get-AllKeys P rest vip {conn = conn} a.1 (ground (arith, e, miss))
]

get-remove :
    (peers : PeerRegistry) (vip other : List ℕ)
    → same vip other ≡ false
    → get (remove peers vip) other ≡ get peers other
unfolding get remove
get-remove [] vip other ne = refl
get-remove ((key, conn) ∷ rest) vip other ne = elim (Bool-cases (same key vip)) [
  | inl hit ↦
      let key_eq = same-eq key vip hit in
      ground (arith, hit, rw (← key_eq) at ne, get-remove rest vip other ne)
  | inr miss ↦ ground (arith, miss, get-remove rest vip other ne)
]

-- A lookup gives the last connection inserted under the key, and an insert changes no other key.
pub get-insert :
    (peers : PeerRegistry) (vip other : List ℕ) (conn : Connection)
    → get (insert peers vip conn) other ≡ (if same vip other then some conn else get peers other)
unfolding get insert
get-insert peers vip other conn = elim (Bool-cases (same vip other)) [
  | inl hit ↦ ground (arith, hit)
  | inr miss ↦ ground (arith, miss, get-remove peers vip other miss)
]

-- No key occurs twice.
abbrev pub AreDistinct : PeerRegistry → Type 0
AreDistinct [] = Unit {0}
AreDistinct ((key, conn) ∷ rest) = AllKeys (λ other. same other key ≡ false) rest × AreDistinct rest

remove-absent :
    (peers : PeerRegistry) (vip : List ℕ)
    → AllKeys (λ other. same other vip ≡ false) (remove peers vip)
unfolding remove
remove-absent [] vip = tt
remove-absent ((key, conn) ∷ rest) vip = by_same (same key vip) refl (remove-absent rest vip)
  where
    by_same :
        (b : Bool)
        → same key vip ≡ b
        → AllKeys (λ other. same other vip ≡ false) (remove rest vip)
        → AllKeys
            (λ other. same other vip ≡ false)
            (if b then remove rest vip else (key, conn) ∷ remove rest vip)
    by_same true e later = later
    by_same false e later = (e, later)

remove-AreDistinct :
    (peers : PeerRegistry) (vip : List ℕ) → AreDistinct peers → AreDistinct (remove peers vip)
unfolding remove
remove-AreDistinct [] vip d = tt
remove-AreDistinct ((key, conn) ∷ rest) vip d =
    by_same (same key vip) (remove-AreDistinct rest vip d.1)
  where
    by_same :
        (b : Bool)
        → AreDistinct (remove rest vip)
        → AreDistinct (if b then remove rest vip else (key, conn) ∷ remove rest vip)
    by_same true later = later
    by_same false later = (remove-AllKeys (λ other. same other key ≡ false) rest vip d.0, later)

pub insert-AreDistinct :
    (peers : PeerRegistry) (vip : List ℕ) (conn : Connection)
    → AreDistinct peers
    → AreDistinct (insert peers vip conn)
unfolding insert
insert-AreDistinct peers vip conn d = (remove-absent peers vip, remove-AreDistinct peers vip d)

pub insert-AllKeys :
    (P : List ℕ → Type 0) (peers : PeerRegistry) (vip : List ℕ) (conn : Connection)
    → P vip
    → AllKeys P peers
    → AllKeys P (insert peers vip conn)
unfolding insert
insert-AllKeys P peers vip conn here a = (here, remove-AllKeys P peers vip a)
