-- ===== src/Sim/Fs.antt =====
-- crates/ledger-sim/src/simfs.rs: one sparse file of the simulated storage.
-- A map from offsets is the list of its bindings with ascending keys. A write id is its number. The
-- code of the feature `sim-fs-journaling`, which is off by default, is left out.
pub mod Ranges
pub mod Window
pub mod Read
pub mod Store
pub mod Sound
use Prim.Native.Nat.{compare, Ordering}
use ldgr.Prelude.{
  ℕ, zero, suc, ◌+◌, ◌-◌, ◌%◌, ◌^◌, min, max, Bool, true, false, ◌&&◌, not, Option, none, some,
  List, [], ◌∷◌, ◌++◌, map, ltb, leb, ◌==◌, if◌then◌else◌, length, take, drop,
}

pub data PageState : Type 0 where
  clean : PageState
  dirty : PageState
  allocated : PageState

pub record ByteRange : Type 0 where
  pub content : List ℕ
  pub write_id : ℕ
  pub state : PageState

abbrev pub Ranges : Type 0
Ranges = List (ℕ × ByteRange)

pub record File : Type 0 where
  pub cache : Ranges
  pub durable : Ranges
  pub len : ℕ
  pub created_by : Option ℕ
  pub durable_exists : Bool

abbrev pub default_file : File
default_file = record {
  cache = [];
  durable = [];
  len = 0;
  created_by = none;
  durable_exists = false;
}

-- `saturating_add` of a `u64`.
abbrev pub sat_add : ℕ → ℕ → ℕ
sat_add a b = min (a + b) (2 ^ 64 - 1)

abbrev pub range_end : ℕ × ByteRange → ℕ
range_end (start, range) = sat_add start (length range.content)

-- `insert` of the map.
unfoldable pub insert_range : ℕ → ByteRange → Ranges → Ranges
insert_range start range [] = (start, range) ∷ []
insert_range start range ((s, r) ∷ rs) = elim (compare s start) [
  | Ordering.lt ↦ (s, r) ∷ insert_range start range rs
  | Ordering.eq ↦ (start, range) ∷ rs
  | Ordering.gt ↦ (start, range) ∷ (s, r) ∷ rs
]

unfoldable pub persist_range : ℕ × ByteRange → ℕ × ByteRange
persist_range (start, range) = (start, record range { state = PageState.clean })

unfoldable pub persist : File → File
persist file = record file { durable = map persist_range file.cache; durable_exists = true }

unfoldable pub max_end : Ranges → ℕ
max_end [] = 0
max_end (r ∷ rs) = max (range_end r) (max_end rs)

unfoldable pub recompute_length : File → File
recompute_length file = record file { len = max_end file.cache }

-- `none` where the file does not survive.
unfoldable pub drop_unsynced : File → Option File
drop_unsynced file =
    if file.durable_exists
    then some (recompute_length (record file { cache = file.durable }))
    else none

-- Does a range reach into the window? The bound is that of `range(..window_end.max(1))`.
unfoldable pub affected : (window_start window_end : ℕ) → ℕ × ByteRange → Bool
affected window_start window_end r = ltb r.0 (max window_end 1) && ltb window_start (range_end r)

-- The pieces of an affected range outside the window.
unfoldable pub pieces : (window_start window_end : ℕ) → ℕ × ByteRange → Ranges
pieces window_start window_end (start, range) =
    let left_len = window_start - start in
    let left =
      if ltb start window_start
      then (
        start,
        record range {
          content = take (min left_len (length range.content)) range.content;
          state = PageState.dirty;
        },
      )
        ∷ []
      else [] in
    let right_start = window_end - start in
    let right =
      if ltb window_end (range_end (start, range)) && ltb right_start (length range.content)
      then (
        window_end,
        record range { content = drop right_start range.content; state = PageState.dirty },
      )
        ∷ []
      else [] in
    left ++ right

unfoldable pub splits : (window_start window_end : ℕ) → Ranges → Ranges
splits window_start window_end [] = []
splits window_start window_end (r ∷ rs) =
    let rest = splits window_start window_end rs in
    if affected window_start window_end r then pieces window_start window_end r ++ rest else rest

-- The map after the removals.
unfoldable pub unaffected : (window_start window_end : ℕ) → Ranges → Ranges
unaffected window_start window_end [] = []
unaffected window_start window_end (r ∷ rs) =
    let rest = unaffected window_start window_end rs in
    if affected window_start window_end r then rest else r ∷ rest

unfoldable pub insert_all : Ranges → Ranges → Ranges
insert_all [] cache = cache
insert_all ((start, range) ∷ rs) cache = insert_all rs (insert_range start range cache)

-- The end of `write_bytes`: the window is replaced.
unfoldable pub replace_window : (id offset : ℕ) → List ℕ → Ranges → Ranges
replace_window id offset content cache =
    let window_end = offset + length content in
    insert_range offset (record { content = content; write_id = id; state = PageState.dirty })
      (insert_all (splits offset window_end cache) (unaffected offset window_end cache))

unfoldable pub zeros : ℕ → List ℕ
zeros zero = []
zeros (suc n) = 0 ∷ zeros n

pub record Reading : Type 0 where
  pub out : List ℕ
  pub parents : List ℕ
  pub cursor : ℕ

-- The loop of `read_bytes` over the ranges below `bound`. A slice is empty where the source would be
-- out of bounds.
unfoldable pub read_loop : (bound window_end : ℕ) → Ranges → Reading → Reading
read_loop bound window_end [] reading = reading
read_loop bound window_end (r ∷ rs) reading =
    let cursor = max reading.cursor r.0 in
    let copy_len = min (range_end r) window_end - cursor in
    let next : Reading = record {
      out =
          reading.out
          ++ (zeros (r.0 - reading.cursor) ++ take copy_len (drop (cursor - r.0) r.1.content));
      parents = r.1.write_id ∷ reading.parents;
      cursor = sat_add cursor copy_len;
    } in
    let rest =
      read_loop bound window_end rs (if leb (range_end r) reading.cursor then reading else next) in
    if ltb r.0 bound then rest else reading

-- The bytes from `offset` on. `offset + 1` wraps, as it does without overflow checks.
unfoldable pub read_window : (offset requested_len : ℕ) → File → Reading
read_window offset requested_len file =
    let taken = min (file.len - offset) requested_len in
    let window_end = sat_add offset taken in
    let reading =
      read_loop (max window_end ((offset + 1) % 2 ^ 64)) window_end file.cache
        (record { out = []; parents = []; cursor = offset }) in
    record reading { out = reading.out ++ zeros (window_end - reading.cursor) }
