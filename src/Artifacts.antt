-- ===== src/Artifacts.antt =====
-- src/artifacts/artifact-store.ts: files that are named by the hash of their content. A location is
-- the folder and the name of its file, below the store's root; the hash is a parameter, and so is
-- whether the process may write to files that are read-only.
use mathlib.Core.Path.{subst}
use shld.Prelude.{
  ℕ, ◌≡◌, refl, ◌⊎◌, inl, inr, Bool, true, not, ◌&&◌, Option, none, some, List, [], ◌∷◌, String,
  str_eq, eq_iff, is_some, get_or, find, if◌then◌else◌, arith, length, All, ap, sym, ◌∙◌,
  Bool-cases,
}
use shld.Action.{Action, Result, ok, err, pure, lift, gets, modify, ◌>>=◌, ◌>>◌}
use shld.Domain.Errors.{DomainError, plain_error}

pub record StorageLocation : Type 0 where
  pub subdir : String
  pub content_hash : String

pub record StoredFile : Type 0 where
  pub storage_location : StorageLocation
  pub content_hash : String
  pub size_bytes : ℕ

pub record FileRow : Type 0 where
  pub location : StorageLocation
  pub content : List ℕ

-- the files below the root, the newest first; `store` leaves each of them read-only
abbrev pub Files : Type 0
Files = List FileRow

abbrev pub same_location : StorageLocation → StorageLocation → Bool
same_location a b = str_eq a.subdir b.subdir && str_eq a.content_hash b.content_hash

unfoldable pub find_file : StorageLocation → Files → Option FileRow
find_file location files = find (λ f. same_location f.location location) files

-- `writeFile`, and then `chmod(location, 0o444)`
unfoldable pub write_file : Bool → FileRow → Action Files (Unit {0})
unfolding ◌>>=◌
write_file privileged row = do
  there ← gets (find_file row.location)
  lift (if is_some there && not privileged then err plain_error else ok tt)
  modify (λ files. row ∷ files)

abbrev pub content_of : Option FileRow → Result (List ℕ)
content_of none = err plain_error
content_of (some f) = ok f.content

unfoldable pub read : StorageLocation → Files → Result (List ℕ)
unfolding find_file
read location files = content_of (find_file location files)

second-true : (a b : Bool) → (a && b) ≡ true → b ≡ true
second-true a b h = ground arith

clash :
    {A S : Type 0} {a : A} {s t : S} {e : DomainError} {p : Result A × S}
    → p ≡ (err e, s)
    → p ≡ (ok a, t)
    → ⊥
clash p q = cc

-- a statement about what an action returns
abbrev Answer : {A S : Type 0} → (A → S → Type 0) → Result A × S → Type 0
Answer P (ok a, s) = P a s
Answer P (err e, s) = Unit

same_answer :
    {A S : Type 0} {a b : A} {s t : S} {p : Result A × S} (P : A → S → Type 0)
    → p ≡ (ok a, s)
    → p ≡ (ok b, t)
    → P a s
    → P b t
same_answer P p q h = subst (Answer P) (sym p ∙ q) h

module _ (sha256 : List ℕ → String) (privileged : Bool) where
  -- `subdir = "misc"` by default
  unfoldable pub store : List ℕ → Option String → Action Files StoredFile
  unfolding ◌>>=◌ write_file
  store content subdir = do
    let location : StorageLocation = record {
      subdir = get_or subdir "misc";
      content_hash = sha256 content;
    }
    write_file privileged (record { location = location; content = content })
    pure (record {
      storage_location = location;
      content_hash = sha256 content;
      size_bytes = length content;
    })

  -- what later calls leave, whether they succeed or fail
  unfoldable pub store_all : List (List ℕ × Option String) → Files → Files
  unfolding store
  store_all [] files = files
  store_all ((content, subdir) ∷ later) files = store_all later (store content subdir files).1

  abbrev pub location_of : List ℕ → Option String → StorageLocation
  location_of content subdir = record {
    subdir = get_or subdir "misc";
    content_hash = sha256 content;
  }

  abbrev row_of : List ℕ → Option String → FileRow
  row_of content subdir = record { location = location_of content subdir; content = content }

  abbrev pub stored : List ℕ → Option String → StoredFile
  stored content subdir = record {
    storage_location = location_of content subdir;
    content_hash = sha256 content;
    size_bytes = length content;
  }

  -- The call adds the file, or throws and changes nothing.
  store-cases :
      (content : List ℕ) (subdir : Option String) (files : Files)
      → (store content subdir files ≡ (ok (stored content subdir), row_of content subdir ∷ files))
        ⊎ (store content subdir files ≡ (err plain_error, files))
  unfolding store
  store-cases content subdir files =
      elim (Bool-cases (is_some (find_file (location_of content subdir) files) && not privileged)) [
        | inl shut ↦ inr (rw shut)
        | inr free ↦ inl (rw free)
      ]

  -- no other content of the list has this content's hash
  abbrev pub HasOwnHash : List ℕ → List (List ℕ × Option String) → Type 0
  HasOwnHash content later = All (λ e. sha256 e.0 ≡ sha256 content → e.0 ≡ content) later

  abbrev Holds : StorageLocation → List ℕ → Files → Type 0
  Holds location content files = read location files ≡ ok content

  Holds-cons :
      (content other : List ℕ) (subdir subdir' : Option String) (files : Files)
      → (sha256 other ≡ sha256 content → other ≡ content)
      → Holds (location_of content subdir) content files
      → Holds (location_of content subdir) content (row_of other subdir' ∷ files)
  unfolding read
  Holds-cons content other subdir subdir' files own held =
      elim (Bool-cases (same_location (location_of other subdir') (location_of content subdir))) [
        | inl same ↦ rw (same) (ap ok (own ((eq_iff _ _).0 (second-true _ _ same))))
        | inr differs ↦ rw differs held
      ]

  store_all-Holds :
      (content : List ℕ) (subdir : Option String) (later : List (List ℕ × Option String))
      (files : Files)
      → HasOwnHash content later
      → Holds (location_of content subdir) content files
      → Holds (location_of content subdir) content (store_all later files)
  unfolding store_all
  store_all-Holds content subdir [] files own held = held
  store_all-Holds content subdir ((other, s) ∷ later) files own held =
      store_all-Holds content subdir later _ own.1 (elim (store-cases other s files) [
        | inl added ↦ rw added (Holds-cons content other subdir s files own.0 held)
        | inr refused ↦ rw refused held
      ])

  same_self : (l : StorageLocation) → same_location l l ≡ true
  same_self l =
      rw ((eq_iff l.subdir l.subdir).1 refl, (eq_iff l.content_hash l.content_hash).1 refl)

  read_first :
      (content : List ℕ) (subdir : Option String) (files : Files)
      → Holds (location_of content subdir) content (row_of content subdir ∷ files)
  unfolding read
  read_first content subdir files = rw (same_self (location_of content subdir))

  -- What was stored is read back under its location, whatever is stored later, whether or not those
  -- calls fail, as long as no other content among them has the same hash.
  pub read-store :
      (content : List ℕ) (subdir : Option String) (files after : Files) (st : StoredFile)
      (later : List (List ℕ × Option String))
      → store content subdir files ≡ (ok st, after)
      → HasOwnHash content later
      → read st.storage_location (store_all later after) ≡ ok content
  read-store content subdir files after st later h own = elim (store-cases content subdir files) [
    | inl added ↦
        same_answer (λ x t. read x.storage_location (store_all later t) ≡ ok content) added h
          (store_all-Holds content subdir later _ own (read_first content subdir files))
    | inr refused ↦ absurd (clash refused h)
  ]
