-- ===== src/Swap/Prepare.antt =====
-- DPU_FOREACH over the DPUs with dpu_prepare_xfer, as in module/swap.c: the buffers that are
-- prepared, and the host's memory where the loop writes to it first.
use pim_swap.Base.{
  ℕ, zero, suc, ◌+◌, ◌^◌, ◌≤◌, ◌<◌, ◌≡◌, ◌⊎◌, inl, refl, sym, ap, ◌∙◌, arith, ℕ_discrete,
}
use pim_swap.Mram.{
  Mram, IsBytes, mram_read, mram_write, mram_read_ext, mram_write_outside, IsBytes-mram_write,
}
use pim_swap.Program.Word.{word_bytes, word_of_bytes, word-store, word-AreBytes}
use pim_swap.Host.{DpuSet, Machine, dpu_prepare_xfer, update}
use pim_swap.Host.Transfer.{prepared}
use pim_swap.Swap.{foreach, set_host}

-- The prepared buffers, and the host's memory, after the rounds from i on.
pub all_prepared : ℕ → ℕ → (ℕ → ℕ) → (ℕ → ℕ) → ℕ → ℕ
all_prepared zero i at p = p
all_prepared (suc left) i at p = all_prepared left (i + 1) at (update p i (at i))

unfoldable pub all_written : ℕ → ℕ → (ℕ → Mram → Mram) → Mram → Mram
all_written zero i w m = m
all_written (suc left) i w m = all_written left (i + 1) w (w i m)

-- A loop whose round j writes to the host's memory and then prepares the buffer `at j`.
abbrev pub round : (ℕ → ℕ) → (ℕ → Mram → Mram) → DpuSet → ℕ → Machine → Machine
round at w dpu j mc = (dpu_prepare_xfer dpu (at j) (record mc { host = w j mc.host })).1

pub foreach-round :
    (left rank i : ℕ) (at : ℕ → ℕ) (w : ℕ → Mram → Mram) (mc : Machine)
    → i + left ≤ 256
    → foreach left rank i (round at w) mc ≡ record mc {
      push_data = all_prepared left i at mc.push_data;
      host = all_written left i w mc.host;
    }
unfolding foreach all_prepared all_written
foreach-round zero rank i at w mc h = refl
foreach-round (suc left) rank i at w mc h =
    ap (foreach left rank (i + 1) (round at w))
      (ap (λ p. p.1) (prepared rank i (at i) (record mc { host = w i mc.host }) (omega arith)))
    ∙ foreach-round left rank (i + 1) at w
        (record mc { host = w i mc.host; push_data = update mc.push_data i (at i) }) (omega arith)

prepared_outside :
    (left i : ℕ) (at p : ℕ → ℕ) (j : ℕ)
    → (j < i) ⊎ (i + left ≤ j)
    → all_prepared left i at p j ≡ p j
unfolding all_prepared
prepared_outside zero i at p j out = refl
prepared_outside (suc left) i at p j out =
    prepared_outside left (i + 1) at (update p i (at i)) j (omega arith) ∙ ground arith

pub prepared_inside :
    (left i : ℕ) (at p : ℕ → ℕ) (j : ℕ) → i ≤ j → j < i + left → all_prepared left i at p j ≡ at j
unfolding all_prepared
prepared_inside zero i at p j lo hi = absurd (omega arith)
prepared_inside (suc left) i at p j lo hi = elim (ℕ_discrete i j) [
  | yes e ↦
      prepared_outside left (i + 1) at (update p i (at i)) j (inl (omega arith)) ∙ ground arith
  | no ne ↦ prepared_inside left (i + 1) at (update p i (at i)) j (omega arith) (omega arith)
]

-- Words that are written at addresses at least a word apart.
abbrev pub write_word : (ℕ → ℕ) → (ℕ → ℕ) → ℕ → Mram → Mram
write_word w at j m = mram_write (word_bytes (w j)) (at j) m

module _ (w at : ℕ → ℕ) (ordered : (j k : ℕ) → j < k → at j + 4 ≤ at k) where
  pub words_outside :
      (left i : ℕ) (m : Mram) (x : ℕ)
      → ((j : ℕ) → i ≤ j → j < i + left → (x < at j) ⊎ (at j + 4 ≤ x))
      → all_written left i (write_word w at) m x ≡ m x
  unfolding all_written word_bytes
  words_outside zero i m x h = refl
  words_outside (suc left) i m x h =
      words_outside left (i + 1) (write_word w at i m) x
        (λ j lo hi. h j (omega arith) (omega arith))
      ∙ mram_write_outside (word_bytes (w i)) (at i) m x (h i (omega arith) (omega arith))

  pub words_octets :
      (left i : ℕ) (m : Mram) → IsBytes m → IsBytes (all_written left i (write_word w at) m)
  unfolding all_written
  words_octets zero i m b = b
  words_octets (suc left) i m b =
      words_octets left (i + 1) (write_word w at i m)
        (IsBytes-mram_write (word_bytes (w i)) (at i) m (word-AreBytes (w i)) b)

  pub words_inside :
      (left i : ℕ) (m : Mram) (j : ℕ)
      → i ≤ j
      → j < i + left
      → w j < 2 ^ 32
      → word_of_bytes (mram_read (all_written left i (write_word w at) m) (at j) 4) ≡ w j
  unfolding all_written
  words_inside zero i m j lo hi small = absurd (omega arith)
  words_inside (suc left) i m j lo hi small = elim (ℕ_discrete i j) [
    | yes e ↦
        ap word_of_bytes (
          mram_read_ext _ (write_word w at i m) (at j) 4 λ x from to.
            words_outside left (i + 1) (write_word w at i m) x
              (λ k later end. inl (omega (arith, ordered j k (omega arith)))))
        ∙ (let e' : j ≡ i = sym e in rw e' (word-store (w i) (at i) m (rw e' at small)))
    | no ne ↦ words_inside left (i + 1) (write_word w at i m) j (omega arith) (omega arith) small
  ]

-- The loop that only prepares.
pub foreach-prepare :
    (left rank i : ℕ) (at : ℕ → ℕ) (mc : Machine)
    → i + left ≤ 256
    → foreach left rank i (λ dpu j mc. (dpu_prepare_xfer dpu (at j) mc).1) mc
      ≡ record mc { push_data = all_prepared left i at mc.push_data }
unfolding all_written
foreach-prepare left rank i at mc h =
    foreach-round left rank i at (λ j m. m) mc h
    ∙ ap (λ m. record mc { push_data = all_prepared left i at mc.push_data; host = m })
        (unwritten left i)
  where
    unwritten : (left i : ℕ) → all_written left i (λ j m. m) mc.host ≡ mc.host
    unwritten zero i = refl
    unwritten (suc left) i = unwritten left (i + 1)

-- The loop that only writes a word for each DPU.
pub foreach-words :
    (left rank i : ℕ) (w at : ℕ → ℕ) (mc : Machine)
    → foreach left rank i (λ dpu j mc. set_host (word_bytes (w j)) (at j) mc) mc
      ≡ record mc { host = all_written left i (write_word w at) mc.host }
unfolding foreach all_written set_host
foreach-words zero rank i w at mc = refl
foreach-words (suc left) rank i w at mc =
    foreach-words left rank (i + 1) w at (set_host (word_bytes (w i)) (at i) mc)
