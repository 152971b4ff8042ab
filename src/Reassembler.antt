-- ===== src/Reassembler.antt =====
-- libsponge/stream_reassembler.hh and stream_reassembler.cc. The `std::map` of waiting substrings
-- is the list of its pairs in the order of their keys, as iterators walk it. `size_t` wraps.
pub mod Stored
pub mod Trimmed
pub mod Start
pub mod Output
pub mod Assemble
pub mod Place
pub mod Finish
pub mod Accept
pub mod Push
pub mod History
pub mod Bare
pub mod Delivery
use sponge.Prelude.{
  ℕ, ◌-◌, ◌^◌, Bool, true, false, ◌&&◌, List, [], ◌∷◌, Option, none, some, length, take, drop, ltb,
  leb, ◌==◌, if◌then◌else◌, add64, sub64,
}
use sponge.Prelude.Maps.{insert, erase}
use sponge.ByteStream
use sponge.ByteStream.{ByteStream}

abbrev pub Entries : Type 0
Entries = List (ℕ × List ℕ)

pub record Reassembler : Type 0 where
  pub unassemble_strs : Entries
  pub next_assembled_idx : ℕ
  pub unassembled_bytes_num : ℕ
  pub eof_idx : ℕ
  pub output : ByteStream
  pub capacity : ℕ

-- `_eof_idx(-1)` is the largest `size_t`.
unfoldable pub init : ℕ → Reassembler
init capacity = record {
  unassemble_strs = [];
  next_assembled_idx = 0;
  unassembled_bytes_num = 0;
  eof_idx = 2 ^ 64 - 1;
  output = ByteStream.init capacity;
  capacity = capacity;
}

abbrev pub unassembled_bytes : Reassembler → ℕ
unassembled_bytes r = r.unassembled_bytes_num

abbrev pub empty : Reassembler → Bool
empty r = r.unassembled_bytes_num == 0

-- The pair before `upper_bound(index)`. It is `none` where the iterator stays at `begin()`, that is
-- at `end()` or at a pair above `index`.
unfoldable pub floor_entry : ℕ → Entries → Option (ℕ × List ℕ)
floor_entry index [] = none
floor_entry index ((i, d) ∷ m) =
    if ltb index i
    then none
    else (elim (floor_entry index m) [ none ↦ some (i, d) | some e ↦ some e ])

-- `new_idx`: where the part of the substring begins that is neither assembled nor in the pair below.
unfoldable pub new_start : ℕ → Entries → ℕ → ℕ
unfolding floor_entry
new_start next m index = elim (floor_entry index m) [
  | none ↦ if ltb index next then next else index
  | some (up_idx, up) ↦
      if ltb index (add64 up_idx (length up)) then add64 up_idx (length up) else index
]

-- What the loop over the pairs from `lower_bound(new_idx)` on leaves.
pub record Trim : Type 0 where
  pub data_size : ℕ
  pub unassembled : ℕ
  pub rest : Entries

abbrev with_entry : ℕ × List ℕ → Trim → Trim
with_entry e t = record t { rest = e ∷ t.rest }

-- The pairs below `lower_bound(new_idx)` are passed over. `data_size` is an `ssize_t`, kept as its
-- bit pattern.
unfoldable pub trim : ℕ → ℕ → ℕ → Entries → Trim
trim new_idx data_size u [] = record { data_size = data_size; unassembled = u; rest = [] }
trim new_idx data_size u ((i, d) ∷ m) = elim (ltb i new_idx) [
  | true ↦ with_entry (i, d) (trim new_idx data_size u m)
  | false ↦
      let data_end_pos = add64 new_idx data_size in
      elim (ltb i data_end_pos) [
        | true ↦ elim (ltb data_end_pos (add64 i (length d))) [
          | true ↦ record { data_size = sub64 i new_idx; unassembled = u; rest = (i, d) ∷ m }
          | false ↦ trim new_idx data_size (sub64 u (length d)) m
        ]
        | false ↦ record { data_size = data_size; unassembled = u; rest = (i, d) ∷ m }
      ]
]

-- `data_size > 0` on an `ssize_t`
abbrev pub positive : ℕ → Bool
positive n = ltb 0 n && ltb n (2 ^ 63)

-- Stores a substring that waits.
unfoldable pub store : Reassembler → ℕ → List ℕ → Reassembler
unfolding insert
store r k bytes = record r {
  unassembled_bytes_num = add64 r.unassembled_bytes_num (length bytes);
  unassemble_strs = insert k bytes r.unassemble_strs;
}

-- Writes `new_data` at once if it comes next, and stores it, or what did not fit, if not.
unfoldable pub place : Reassembler → ℕ → List ℕ → Reassembler
unfolding store
place r new_idx new_data =
    if new_idx == r.next_assembled_idx
    then (let (write_byte, out) = ByteStream.write r.output new_data in
        let next = add64 r.next_assembled_idx write_byte in
        let written = record r { output = out; next_assembled_idx = next } in
        if ltb write_byte (length new_data)
        then store written next (drop write_byte new_data)
        else written)
    else store r new_idx new_data

-- The loop that writes the pairs which have come next.
unfoldable pub assemble : Entries → Reassembler → Reassembler
unfolding insert erase
assemble [] r = record r { unassemble_strs = [] }
assemble ((i, d) ∷ m) r =
    let (write_num, out) = ByteStream.write r.output d in
    let next = add64 r.next_assembled_idx write_num in
    let left = sub64 (length d) write_num in
    let partly = record r {
      output = out;
      next_assembled_idx = next;
      unassembled_bytes_num = sub64 (add64 r.unassembled_bytes_num left) (length d);
      unassemble_strs = erase i (insert next (drop write_num d) ((i, d) ∷ m));
    } in
    let wholly = record r {
      output = out;
      next_assembled_idx = next;
      unassembled_bytes_num = sub64 r.unassembled_bytes_num (length d);
    } in
    if i == r.next_assembled_idx
    then (if ltb write_num (length d) then partly else assemble m wholly)
    else record r { unassemble_strs = (i, d) ∷ m }

-- The last lines of `push_substring`.
unfoldable pub finish : Reassembler → ℕ → Bool → Reassembler
finish r end eof =
    let eof_idx = if eof then end else r.eof_idx in
    if leb eof_idx r.next_assembled_idx
    then record r { eof_idx = eof_idx; output = ByteStream.end_input r.output }
    else record r { eof_idx = eof_idx }

abbrev pub first_unacceptable_idx : Reassembler → ℕ
first_unacceptable_idx r =
    sub64 (add64 r.next_assembled_idx r.capacity) (ByteStream.buffer_size r.output)

-- The part of `push_substring` after the window check, from the trimmed size on.
unfoldable pub accept : Reassembler → ℕ → ℕ → ℕ → List ℕ → Reassembler
unfolding place assemble
accept r new_idx data_start_pos data_size bytes =
    let placed =
      (if positive data_size
        then place r new_idx (take data_size (drop data_start_pos bytes))
        else r) in
    assemble placed.unassemble_strs placed

unfoldable pub push_substring : Reassembler → List ℕ → ℕ → Bool → Reassembler
unfolding new_start trim accept finish
push_substring r bytes index eof =
    let new_idx = new_start r.next_assembled_idx r.unassemble_strs index in
    let data_start_pos = sub64 new_idx index in
    let t =
      trim new_idx (sub64 (length bytes) data_start_pos) r.unassembled_bytes_num
        r.unassemble_strs in
    let trimmed = record r { unassemble_strs = t.rest; unassembled_bytes_num = t.unassembled } in
    if leb (first_unacceptable_idx trimmed) new_idx
    then trimmed
    else finish (accept trimmed new_idx data_start_pos t.data_size bytes)
        (add64 index (length bytes)) eof
