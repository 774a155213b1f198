-- ===== src/Mram.antt =====
-- module/mram.h: transfers between the MRAM of a DPU and local buffers.
use pim_swap.Base.{
  ℕ, zero, suc, ◌+◌, ◌-◌, ◌<◌, ◌≤◌, ◌≡◌, ◌⊎◌, refl, sym, ap, ◌∙◌, List, [], ◌∷◌, ◌++◌, arith, ltb,
  leb, ◌&&◌, length, get_or, set, get_or_ext, take, length-take, get_or-take, if◌then◌else◌,
}

-- The MRAM of one DPU: the byte at each offset.
abbrev pub Mram : Type 0
Mram = ℕ → ℕ

-- mram_read(from, to, nb_of_bytes): the bytes that arrive at `to`.
unfoldable pub mram_read : Mram → ℕ → ℕ → List ℕ
mram_read m from zero = []
mram_read m from (suc n) = m from ∷ mram_read m (from + 1) n

-- mram_write(from, to, nb_of_bytes), where `from` holds the bytes of the list.
unfoldable pub mram_write : List ℕ → ℕ → Mram → Mram
mram_write bytes to m x =
    if leb to x && ltb x (to + length bytes) then get_or bytes (x - to) 0 else m x

-- Each cell of a memory, and each entry of a buffer, holds a byte.
abbrev pub IsBytes : Mram → Type 0
IsBytes m = (x : ℕ) → m x < 256

abbrev pub AreBytes : List ℕ → Type 0
AreBytes l = (i : ℕ) → get_or l i 0 < 256

pub length-mram_read : (m : Mram) (from n : ℕ) → length (mram_read m from n) ≡ n
unfolding mram_read
length-mram_read m from zero = refl
length-mram_read m from (suc n) = ap suc (length-mram_read m (from + 1) n)

pub get_or-mram_read :
    (m : Mram) (from n i : ℕ) → i < n → get_or (mram_read m from n) i 0 ≡ m (from + i)
unfolding mram_read
get_or-mram_read m from zero i h = absurd (omega arith)
get_or-mram_read m from (suc n) zero h = ap m (omega arith)
get_or-mram_read m from (suc n) (suc i) h =
    get_or-mram_read m (from + 1) n i (omega arith) ∙ ap m (omega arith)

pub AreBytes-mram_read : (m : Mram) (from n : ℕ) → IsBytes m → AreBytes (mram_read m from n)
unfolding mram_read
AreBytes-mram_read m from zero h i = omega arith
AreBytes-mram_read m from (suc n) h zero = h from
AreBytes-mram_read m from (suc n) h (suc i) = AreBytes-mram_read m (from + 1) n h i

pub mram_write_inside :
    (l : List ℕ) (to : ℕ) (m : Mram) (x : ℕ)
    → to ≤ x
    → x < to + length l
    → mram_write l to m x ≡ get_or l (x - to) 0
unfolding mram_write
mram_write_inside l to m x p q = ground arith

pub mram_write_outside :
    (l : List ℕ) (to : ℕ) (m : Mram) (x : ℕ)
    → (x < to) ⊎ (to + length l ≤ x)
    → mram_write l to m x ≡ m x
unfolding mram_write
mram_write_outside l to m x p = ground arith

pub IsBytes-mram_write :
    (l : List ℕ) (to : ℕ) (m : Mram) → AreBytes l → IsBytes m → IsBytes (mram_write l to m)
unfolding mram_write
IsBytes-mram_write l to m bl bm x = ground (arith, bl (x - to), bm x)

-- What was written is read back.
pub mram_read-mram_write :
    (l : List ℕ) (to : ℕ) (m : Mram) → mram_read (mram_write l to m) to (length l) ≡ l
mram_read-mram_write l to m = get_or_ext 0 _ l (length-mram_read _ to (length l)) λ i h.
    let p : i < length l = omega (arith, length-mram_read (mram_write l to m) to (length l)) in
    get_or-mram_read (mram_write l to m) to (length l) i p
    ∙ mram_write_inside l to m (to + i) (omega arith) (omega arith)
    ∙ ap (λ k. get_or l k 0) (omega arith)

-- A read sees only the cells of its range.
pub mram_read_ext :
    (m m' : Mram) (from n : ℕ)
    → ((x : ℕ) → from ≤ x → x < from + n → m x ≡ m' x)
    → mram_read m from n ≡ mram_read m' from n
mram_read_ext m m' from n h =
    get_or_ext 0 _ _ (length-mram_read m from n ∙ sym (length-mram_read m' from n)) λ i p.
      let q : i < n = omega (arith, length-mram_read m from n) in
      get_or-mram_read m from n i q
      ∙ h (from + i) (omega arith) (omega arith)
      ∙ sym (get_or-mram_read m' from n i q)

pub AreBytes-nil : AreBytes []
AreBytes-nil i = omega arith

pub AreBytes-cons : (x : ℕ) (l : List ℕ) → x < 256 → AreBytes l → AreBytes (x ∷ l)
AreBytes-cons x l hx hl zero = hx
AreBytes-cons x l hx hl (suc i) = hl i

pub AreBytes-set : (l : List ℕ) (i v : ℕ) → v < 256 → AreBytes l → AreBytes (set l i v)
AreBytes-set [] i v hv hl = hl
AreBytes-set (x ∷ l) zero v hv hl = AreBytes-cons v l hv (λ j. hl (suc j))
AreBytes-set (x ∷ l) (suc i) v hv hl =
    AreBytes-cons x (set l i v) (hl 0) (AreBytes-set l i v hv (λ j. hl (suc j)))

pub AreBytes-take : (n : ℕ) (l : List ℕ) → AreBytes l → AreBytes (take n l)
AreBytes-take zero l h i = omega arith
AreBytes-take (suc n) [] h i = h i
AreBytes-take (suc n) (x ∷ l) h zero = h 0
AreBytes-take (suc n) (x ∷ l) h (suc i) = AreBytes-take n l (λ j. h (suc j)) i

-- A shorter read gives the first bytes that were written.
pub mram_read-take :
    (l : List ℕ) (to n : ℕ) (m : Mram)
    → n ≤ length l
    → mram_read (mram_write l to m) to n ≡ take n l
mram_read-take l to n m h =
    get_or_ext 0 _ _ (length-mram_read _ to n ∙ sym (length-take n l h)) λ i p.
      let q : i < n = omega (arith, length-mram_read (mram_write l to m) to n) in
      get_or-mram_read (mram_write l to m) to n i q
      ∙ mram_write_inside l to m (to + i) (omega arith) (omega arith)
      ∙ ap (λ k. get_or l k 0) (omega arith)
      ∙ sym (get_or-take n l i 0 q)

-- Two reads in a row.
pub mram_read-append :
    (m : Mram) (from n k : ℕ)
    → mram_read m from n ++ mram_read m (from + n) k ≡ mram_read m from (n + k)
unfolding mram_read
mram_read-append m from zero k =
    ap (λ (a : ℕ). mram_read m a k) (omega arith) ∙ ap (mram_read m from) (omega arith)
mram_read-append m from (suc n) k =
    let e : from + suc n ≡ from + 1 + n = omega arith in
    let f : suc n + k ≡ suc (n + k) = omega arith in
    rw (e, f) (ap (λ (l : List ℕ). m from ∷ l) (mram_read-append m (from + 1) n k))

-- Two reads of cells that agree one by one.
pub mram_read_shift :
    (m m' : Mram) (from from' n : ℕ)
    → ((i : ℕ) → i < n → m (from + i) ≡ m' (from' + i))
    → mram_read m from n ≡ mram_read m' from' n
mram_read_shift m m' from from' n h =
    get_or_ext 0 _ _ (length-mram_read m from n ∙ sym (length-mram_read m' from' n)) λ i p.
      let q : i < n = omega (arith, length-mram_read m from n) in
      get_or-mram_read m from n i q ∙ h i q ∙ sym (get_or-mram_read m' from' n i q)
