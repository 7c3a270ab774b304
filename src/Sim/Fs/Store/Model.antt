-- ===== src/Sim/Fs/Store/Model.antt =====
-- What the store promises, as a map from keys to two contents: the one that is read and the one that a
-- crash goes back to. A content is a length and a byte at each offset.
use mathlib.Core.Path.{fun_ext}
use ldgr.Prelude.{
  ℕ, ◌+◌, ◌-◌, ◌<◌, ◌^◌, ◌≡◌, refl, sym, ◌∙◌, ap, max, Bool, true, false, ◌&&◌, Option, none, some,
  List, [], length, get_or, ltb, leb, if◌then◌else◌, Bool-cases, inl, inr,
}
use ldgr.Prelude.Bytes.{bytes_eq}
use ldgr.Sim.Fs.{File, Ranges, persist, max_end, recompute_length, drop_unsynced}
use ldgr.Sim.Fs.Ranges.{byte_at}
use ldgr.Sim.Fs.Window.{byte_at-replace_window}
use ldgr.Sim.Fs.Sound.{IsSound, IsSound?, byte_at-persist, max_end-persist}
use ldgr.Sim.Fs.Store.{Files, find_file, insert_file, remove_file, file_or_new, written}
use ldgr.Sim.Fs.Store.Ops.{persist_all}
use ldgr.Sim.Fs.Store.Crash.{drop_all}
use ldgr.Sim.Fs.Store.Files.{
  Ascends, find_file-insert_file, find_file-remove_file, find_file-persist_all, find_file-drop_all,
}
use ldgr.Sim.Fs.Store.Invariant.{AllSound, find_file-IsSound}

pub record Content : Type 0 where
  pub size : ℕ
  pub byte : ℕ → ℕ

abbrev pub View : Type 0
View = Option Content × Option Content

-- What is read of a file.
abbrev pub cached : Option File → Option Content
cached none = none
cached (some file) = some (record { size = file.len; byte = byte_at file.cache })

-- What a crash leaves of it.
abbrev pub survives : Bool → Ranges → Option Content
survives true durable = some (record { size = max_end durable; byte = byte_at durable })
survives false durable = none

abbrev pub durable : Option File → Option Content
durable none = none
durable (some file) = survives file.durable_exists file.durable

abbrev pub view : Option File → View
view o = (cached o, durable o)

abbrev pub size_of : Option Content → ℕ
size_of none = 0
size_of (some c) = c.size

abbrev pub byte_of : Option Content → ℕ → ℕ
byte_of none x = 0
byte_of (some c) x = c.byte x

abbrev pub no_file : View
no_file = (none, none)

abbrev pub empty_file : View
empty_file = (some (record { size = 0; byte = λ x. 0 }), none)

-- The window is replaced, and what a crash leaves stays.
abbrev pub with_window : (offset : ℕ) → List ℕ → View → View
with_window offset content w = (
  some (record {
    size = max (size_of w.0) (offset + length content);
    byte = λ x.
        if leb offset x && ltb x (offset + length content)
        then get_or content (x - offset) 0
        else byte_of w.0 x;
  }),
  w.1,
)

abbrev pub synced : View → View
synced w = (w.0, w.0)

abbrev pub crashed : View → View
crashed w = (w.1, w.1)

content_eq :
    (m n : ℕ) (f g : ℕ → ℕ)
    → m ≡ n
    → ((x : ℕ) → f x ≡ g x)
    → ◌≡◌ {A = Option Content}
        (some (record { size = m; byte = f }))
        (some (record { size = n; byte = g }))
content_eq m n f g e h =
    ap (λ (s : ℕ). some (record { size = s; byte = f })) e
    ∙ ap (λ (b : ℕ → ℕ). some (record { size = n; byte = b })) (fun_ext h)

pub view-persist :
    (file : File) → IsSound file → view (some (persist file)) ≡ synced (view (some file))
unfolding persist
view-persist file s =
    ap (λ c. (cached (some file), c))
      (content_eq _ _ _ _ (max_end-persist file.cache ∙ sym s.size) (byte_at-persist file.cache))

view-drop_unsynced : (file : File) → view (drop_unsynced file) ≡ crashed (view (some file))
unfolding drop_unsynced recompute_length
view-drop_unsynced file = elim (Bool-cases file.durable_exists) [
  | inl kept ↦ rw kept refl
  | inr lost ↦ rw lost refl
]

view-synced :
    (o : Option File)
    → IsSound? o
    → view (elim o [ none ↦ none | some f ↦ some (persist f) ]) ≡ synced (view o)
view-synced none s = refl
view-synced (some file) s = view-persist file s

view-crashed :
    (o : Option File) → view (elim o [ none ↦ none | some f ↦ drop_unsynced f ]) ≡ crashed (view o)
view-crashed none = refl
view-crashed (some file) = view-drop_unsynced file

pub view-written :
    (id offset : ℕ) (content : List ℕ) (o : Option File)
    → IsSound? o
    → 0 < length content
    → offset + length content < 2 ^ 64
    → view (some (written id offset content (file_or_new id o)))
      ≡ with_window offset content (view o)
unfolding written file_or_new byte_at
view-written id offset content none s some_bytes fits =
    ap (λ c. (c, none))
      (content_eq _ _ _ _ refl (byte_at-replace_window id offset content [] some_bytes fits tt))
view-written id offset content (some file) s some_bytes fits =
    ap (λ c. (c, durable (some file)))
      (content_eq _ _ _ _ refl
        (byte_at-replace_window id offset content file.cache some_bytes fits s.cache))

view-if :
    (b : Bool) (o p : Option File) → view (if b then o else p) ≡ (if b then view o else view p)
view-if true o p = refl
view-if false o p = refl

abbrev pub Views : Type 0
Views = List ℕ → View

abbrev pub views : Files → Views
views m k = view (find_file k m)

abbrev pub update : List ℕ → View → Views → Views
update key w v k = if bytes_eq key k then w else v k

pub views-insert_file :
    (key : List ℕ) (file : File) (m : Files)
    → views (insert_file key file m) ≡ update key (view (some file)) (views m)
views-insert_file key file m = fun_ext λ k.
    ap view (find_file-insert_file k key file m)
    ∙ view-if (bytes_eq key k) (some file) (find_file k m)

pub views-remove_file :
    (key : List ℕ) (m : Files) → views (remove_file key m) ≡ update key no_file (views m)
views-remove_file key m =
    fun_ext
      λ k. ap view (find_file-remove_file k key m) ∙ view-if (bytes_eq key k) none (find_file k m)

pub views-persist_all : (m : Files) → AllSound m → views (persist_all m) ≡ (λ k. synced (views m k))
views-persist_all m s =
    fun_ext λ k.
      ap view (find_file-persist_all k m) ∙ view-synced (find_file k m) (find_file-IsSound k m s)

pub views-drop_all : (m : Files) → Ascends m → views (drop_all m) ≡ (λ k. crashed (views m k))
views-drop_all m h = fun_ext λ k. ap view (find_file-drop_all k m h) ∙ view-crashed (find_file k m)
