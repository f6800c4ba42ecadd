-- ===== src/FileRelay/Disk.antt =====
-- The disk under the writers of daemon/src/file_relay/writer.rs, which several streams share: the
-- operations that reach it, one at a time, and what becomes of a file under them.
use decentis.Prelude.{ℕ, false, List, [], ◌∷◌, ◌++◌, ◌≢◌, ◌==◌, if◌then◌else◌, ◌≡◌, refl, arith}
use decentis.FileRelay.File.{write_at}

-- A file is a number. `truncate` is an open that creates or empties it.
pub data DiskOp : Type 0 where
  truncate : ℕ → DiskOp
  write : ℕ → ℕ → List ℕ → DiskOp

-- A file that is not there has no bytes.
abbrev pub Disk : Type 0
Disk = ℕ → List ℕ

abbrev pub apply_op : DiskOp → Disk → Disk
apply_op (truncate f) d g = if g == f then [] else d g
apply_op (write f p bytes) d g = if g == f then write_at (d g) p bytes else d g

unfoldable pub apply_ops : List DiskOp → Disk → Disk
apply_ops [] d = d
apply_ops (op ∷ ops) d = apply_ops ops (apply_op op d)

-- Two sequences of operations, each in its order, mixed in any way.
pub data Interleaving {ℓ} {A : Type ℓ} : List A → List A → List A → Type ℓ where
  none_left : Interleaving [] [] []
  from_left :
      {x : A} {xs ys zs : List A} → Interleaving xs ys zs → Interleaving (x ∷ xs) ys (x ∷ zs)
  from_right :
      {y : A} {xs ys zs : List A} → Interleaving xs ys zs → Interleaving xs (y ∷ ys) (y ∷ zs)

abbrev pub file_of_op : DiskOp → ℕ
file_of_op (truncate f) = f
file_of_op (write f p bytes) = f

-- No operation is on the file.
abbrev pub Spares : ℕ → List DiskOp → Type 0
Spares f [] = Unit {0}
Spares f (op ∷ ops) = ((f == file_of_op op) ≡ false) × Spares f ops

apply_op-Spares :
    (f : ℕ) (op : DiskOp) (d : Disk) → (f == file_of_op op) ≡ false → apply_op op d f ≡ d f
apply_op-Spares f (truncate g) d h = rw h refl
apply_op-Spares f (write g p bytes) d h = rw h refl

-- What an operation makes of a file depends on that file alone.
apply_op-eq : (f : ℕ) (op : DiskOp) (d d' : Disk) → d f ≡ d' f → apply_op op d f ≡ apply_op op d' f
apply_op-eq f (truncate g) d d' e = ground (arith, e)
apply_op-eq f (write g p bytes) d d' e = ground (arith, e)

-- Operations on other files, wherever they come in between, do not matter to a file.
pub apply_ops-Interleaving :
    {xs ys zs : List DiskOp} (f : ℕ) (d d' : Disk)
    → Interleaving xs ys zs
    → Spares f ys
    → d f ≡ d' f
    → apply_ops zs d f ≡ apply_ops xs d' f
unfolding apply_ops
apply_ops-Interleaving f d d' none_left spared e = e
apply_ops-Interleaving f d d' (from_left {x = op} rest) spared e =
    apply_ops-Interleaving f (apply_op op d) (apply_op op d') rest spared (apply_op-eq f op d d' e)
apply_ops-Interleaving f d d' (from_right {y = op} rest) spared e =
    apply_ops-Interleaving f (apply_op op d) d' rest spared.1
      (rw (apply_op-Spares f op d spared.0) e)

-- All operations are on one file.
abbrev pub AllOn : ℕ → List DiskOp → Type 0
AllOn f [] = Unit {0}
AllOn f (op ∷ ops) = (file_of_op op ≡ f) × AllOn f ops

pub AllOn-append : (f : ℕ) (xs ys : List DiskOp) → AllOn f xs → AllOn f ys → AllOn f (xs ++ ys)
AllOn-append f [] ys on on' = on'
AllOn-append f (op ∷ xs) ys on on' = (on.0, AllOn-append f xs ys on.1 on')

pub AllOn-Spares : (f g : ℕ) (ops : List DiskOp) → g ≢ f → AllOn f ops → Spares g ops
AllOn-Spares f g [] ne on = tt
AllOn-Spares f g (op ∷ ops) ne on = (ground (arith, on.0), AllOn-Spares f g ops ne on.1)

pub Interleaving-sym {ℓ} :
    {A : Type ℓ} {xs ys zs : List A} → Interleaving xs ys zs → Interleaving ys xs zs
Interleaving-sym none_left = none_left
Interleaving-sym (from_left rest) = from_right (Interleaving-sym rest)
Interleaving-sym (from_right rest) = from_left (Interleaving-sym rest)

-- The sequences of any number of tasks, mixed in any way.
pub data Mixed {ℓ} {A : Type ℓ} : List (List A) → List A → Type ℓ where
  no_tasks : Mixed [] []
  add_task :
      {xs ys zs : List A} {xss : List (List A)}
      → Interleaving xs ys zs
      → Mixed xss ys
      → Mixed (xs ∷ xss) zs

pub Spares-Interleaving :
    {xs ys zs : List DiskOp} (f : ℕ)
    → Interleaving xs ys zs
    → Spares f xs
    → Spares f ys
    → Spares f zs
Spares-Interleaving f none_left sx sy = tt
Spares-Interleaving f (from_left rest) sx sy = (sx.0, Spares-Interleaving f rest sx.1 sy)
Spares-Interleaving f (from_right rest) sx sy = (sy.0, Spares-Interleaving f rest sx sy.1)
