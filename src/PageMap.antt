-- ===== src/PageMap.antt =====
-- What the programs of a DPU promise together: a map from identifiers to pages. The children
-- compare the programs of module/swap.c on the MRAM with it.
pub mod Holds
pub mod Insert
pub mod Remove
pub mod Lookup
pub mod Effect
pub mod Run
pub mod Packed
pub mod Fill
use pim_swap.Base.{ℕ, ◌≡◌, ◌≢◌, Option, none, some, List, ◌==◌, if◌then◌else◌, arith, refl}
use pim_swap.Hash.{entry_index, tag_from_id}

abbrev pub PageMap : Type 0
PageMap = ℕ → Option (List ℕ)

abbrev pub no_pages : PageMap
no_pages = λ i. none

abbrev pub put : ℕ → List ℕ → PageMap → PageMap
put id page pages i = if id == i then some page else pages i

abbrev pub remove : ℕ → PageMap → PageMap
remove id pages i = if id == i then none else pages i

-- No page has the identifier's entry of the hash index.
abbrev pub IsUnclaimed : ℕ → PageMap → Type 0
IsUnclaimed id pages = (other : ℕ) → entry_index other ≡ entry_index id → pages other ≡ none

-- The hash index finds the page of the other identifier for this one.
abbrev pub IsAlias : ℕ → ℕ → Type 0
IsAlias id other = (entry_index other ≡ entry_index id) × (tag_from_id other ≡ tag_from_id id)

-- The other identifier has the entry of this one, with a tag that tells the two apart.
abbrev pub IsCollision : ℕ → ℕ → Type 0
IsCollision id other = (entry_index other ≡ entry_index id) × (tag_from_id other ≢ tag_from_id id)

pub put_self : (id : ℕ) (page : List ℕ) (pages : PageMap) → put id page pages id ≡ some page
put_self id page pages = ground arith

pub put_other :
    (id i : ℕ) (page : List ℕ) (pages : PageMap) → id ≢ i → put id page pages i ≡ pages i
put_other id i page pages ne = ground arith

pub remove_self : (id : ℕ) (pages : PageMap) → remove id pages id ≡ none
remove_self id pages = ground arith

pub remove_other : (id i : ℕ) (pages : PageMap) → id ≢ i → remove id pages i ≡ pages i
remove_other id i pages ne = ground arith
