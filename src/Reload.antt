-- ===== src/Reload.antt =====
-- The files that the server and the client watch: events of crate `notify`, and the threads that wait
-- for a removed file. A path is compared by `Path::ends_with`, a parameter.
pub mod Rules
pub mod RulesLaws
pub mod Current
pub mod Certs
pub mod CertsLaws
pub mod Material
pub mod Connector
use wstunnel.Prelude.{
  ℕ, ◌≡◌, refl, any, find, Bool-cases, inl, inr, Option-cases, Bool, true, false, Option, none,
  some, List, [], ◌∷◌, ◌++◌, if◌then◌else◌, get_elem?, remove_at,
}

-- `notify::EventKind`, less what its constructors carry.
pub data EventKind : Type 0 where
  any_event access create modify remove other : EventKind

pub record FsEvent (P : Type 0) : Type 0 where
  pub kind : EventKind
  pub paths : List P

unfoldable pub is_access : EventKind → Bool
is_access access = true
is_access _ = false

-- What an event does to a watched file: its content changed, it is gone, or nothing.
unfoldable pub by_kind : {S : Type 0} → EventKind → S → S → S → S
by_kind create changed removed same = changed
by_kind modify changed removed same = changed
by_kind remove changed removed same = removed
by_kind access changed removed same = same
by_kind other changed removed same = same
by_kind any_event changed removed same = same

abbrev pub is_change : EventKind → Bool
is_change create = true
is_change modify = true
is_change _ = false

pub find-any :
    {A : Type 0} (p : A → Bool) (xs : List A) → any p xs ≡ true → (a : A) × (find p xs ≡ some a)
find-any p [] e = cc
find-any p (x ∷ xs) e = elim (Bool-cases (p x)) [
  | inl y ↦ (x, rw y refl)
  | inr n ↦ let (a, f) = find-any p xs (rw n at e) in (a, rw n f)
]

pub find_missing : {A : Type 0} (p : A → Bool) (xs : List A) → any p xs ≡ false → find p xs ≡ none
find_missing p [] e = refl
find_missing p (x ∷ xs) e = elim (Bool-cases (p x)) [
  | inl y ↦ let e' = rw y at e in cc
  | inr n ↦ rw n (find_missing p xs (rw n at e))
]

pub by_kind_lem :
    {S : Type 0} (C : S → Type 0) (k : EventKind) (changed removed same : S)
    → C changed
    → C removed
    → C same
    → C (by_kind k changed removed same)
unfolding by_kind
by_kind_lem C create changed removed same x y z = x
by_kind_lem C modify changed removed same x y z = x
by_kind_lem C remove changed removed same x y z = y
by_kind_lem C access changed removed same x y z = z
by_kind_lem C other changed removed same x y z = z
by_kind_lem C any_event changed removed same x y z = z

-- The event that a thread makes up when the file is back.
abbrev pub created : {P : Type 0} → P → FsEvent P
created path = record { kind = create; paths = path ∷ [] }

-- What a waiting thread finds: whether its file exists, and whether it is watched again.
pub record Wake : Type 0 where
  pub index : ℕ
  pub exists : Bool
  pub watched : Bool

-- One turn of a thread that waits for a file: it ends when the file exists, with an event if the watch
-- is set. The waiting paths are read by `waiting` and written by `put`.
unfoldable pub try_rewatch :
    {P S : Type 0} → (S → List P) → (List P → S → S) → (FsEvent P → S → S) → Wake → S → S
try_rewatch waiting put handle wake state = elim (get_elem? (waiting state) wake.index) [
  | none ↦ state
  | some path ↦
      let ended = put (remove_at wake.index (waiting state)) state in
      if wake.exists then (if wake.watched then handle (created path) ended else ended) else state
]

-- A family that has the state, the state without the thread, and what the event makes of that, has
-- the state after the turn.
pub try_rewatch_lem :
    {P S : Type 0} (C : S → Type 0) (waiting : S → List P) (put : List P → S → S)
    (handle : FsEvent P → S → S) (i : ℕ) (exists watched : Bool) (state : S)
    → C state
    → C (put (remove_at i (waiting state)) state)
    → ((path : P)
        → get_elem? (waiting state) i ≡ some path
        → C (handle (created path) (put (remove_at i (waiting state)) state)))
    → C (
        try_rewatch waiting put handle
          (record { index = i; exists = exists; watched = watched })
          state)
unfolding try_rewatch
try_rewatch_lem {S = S} C waiting put handle i exists watched state same ended back =
    elim (Option-cases (get_elem? (waiting state) i)) [
      | inl e ↦ rw (try_rewatch, e) same
      | inr (path, e) ↦ rw (try_rewatch, e) (found exists watched _ (back path e))
    ]
  where
    found :
        (exists watched : Bool) (next : S)
        → C next
        → C (
            if exists
            then (if watched then next else put (remove_at i (waiting state)) state)
            else state)
    found false watched next c = same
    found true false next c = ended
    found true true next c = c
