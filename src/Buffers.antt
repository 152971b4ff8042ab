-- ===== src/Buffers.antt =====
-- libsponge/util/buffer.hh and buffer.cc. A shared string is the list of its bytes, since nothing writes
-- to it, a view is a list of bytes too, and an exception is `none`.
pub mod Bytes
use sponge.Prelude.{
  ℕ, zero, suc, ◌+◌, ◌-◌, Bool, true, false, Option, none, some, List, [], ◌∷◌, ◌++◌, length, drop,
  get_elem?, ltb, ◌==◌, if◌then◌else◌, add64,
}

pub record Buffer : Type 0 where
  pub storage : Option (List ℕ)
  pub starting_offset : ℕ

abbrev pub no_buffer : Buffer
no_buffer = record { storage = none; starting_offset = 0 }

abbrev pub buffer : List ℕ → Buffer
buffer bytes = record { storage = some bytes; starting_offset = 0 }

abbrev pub str : Buffer → List ℕ
str b = elim (b.storage) [ none ↦ [] | some bytes ↦ drop b.starting_offset bytes ]

abbrev pub at : Buffer → ℕ → Option ℕ
at b n = get_elem? (str b) n

abbrev pub whole : Option (List ℕ) → ℕ → Bool
whole none offset = false
whole (some bytes) offset = offset == length bytes

unfoldable pub remove_prefix : Buffer → ℕ → Option Buffer
remove_prefix b n =
    let offset = add64 b.starting_offset n in
    if ltb (length (str b)) n
    then none
    else some (record {
      storage = if whole b.storage offset then none else b.storage;
      starting_offset = offset;
    })

-- `BufferList::append`
abbrev pub append : List Buffer → List Buffer → List Buffer
append bs [] = bs
append bs (b ∷ other) = append (bs ++ (b ∷ [])) other

-- The conversion of a `BufferList` to a `Buffer`.
abbrev pub as_buffer : List Buffer → Option Buffer
as_buffer [] = some no_buffer
as_buffer (b ∷ []) = some b
as_buffer (b ∷ c ∷ bs) = none

abbrev pub concatenate : List Buffer → List ℕ
concatenate [] = []
concatenate (b ∷ bs) = str b ++ concatenate bs

abbrev pub size : List Buffer → ℕ
size [] = 0
size (b ∷ bs) = add64 (length (str b)) (size bs)

-- `BufferList::remove_prefix`, its loop by the buffers.
unfoldable pub list_remove_prefix : List Buffer → ℕ → Option (List Buffer)
unfolding remove_prefix
list_remove_prefix bs zero = some bs
list_remove_prefix [] (suc n) = none
list_remove_prefix (b ∷ bs) (suc n) =
    let rest = list_remove_prefix bs (suc n - length (str b)) in
    if ltb (suc n) (length (str b))
    then (elim (remove_prefix b (suc n)) [ none ↦ none | some b' ↦ some (b' ∷ bs) ])
    else rest

-- `BufferViewList` of a `BufferList`.
abbrev pub views : List Buffer → List (List ℕ)
views [] = []
views (b ∷ bs) = str b ∷ views bs

-- `BufferViewList::remove_prefix`
unfoldable pub view_remove_prefix : List (List ℕ) → ℕ → Option (List (List ℕ))
view_remove_prefix vs zero = some vs
view_remove_prefix [] (suc n) = none
view_remove_prefix (v ∷ vs) (suc n) =
    let rest = view_remove_prefix vs (suc n - length v) in
    if ltb (suc n) (length v) then some (drop (suc n) v ∷ vs) else rest

abbrev pub view_size : List (List ℕ) → ℕ
view_size [] = 0
view_size (v ∷ vs) = add64 (length v) (view_size vs)
