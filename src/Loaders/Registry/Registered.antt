-- ===== src/Loaders/Registry/Registered.antt =====
-- What registering changes for the dispatch.
use text.Mathlib.Text.{◌==◌ as str_eq}
use text.Mathlib.TextEquality.{eq_iff}
use text.Mathlib.TextPositions.{eq_refl}
use z3rno_core.Prelude.{
  ◌≡◌, refl, sym, ap, ◌∙◌, subst, Bool, true, false, ◌||◌, String, Option, some, List, [], ◌∷◌, any,
  if◌then◌else◌, Bool-cases, ◌⊎◌, inl, inr, In, arith,
}
use z3rno_core.Models.{Bytes}
use z3rno_core.Result.{ok}
use z3rno_core.Text.{no_text, strip}
use z3rno_core.Loaders.Registry.{
  Loader, Table, LoaderRegistry, set_loader, find_loader, strip_dots, before_semicolon, set_each,
  register, by_mime, get_loader,
}

find-set_loader :
    (key k : String) (loader : Loader) (table : Table)
    → find_loader key (set_loader k loader table)
      ≡ (if str_eq k key then some loader else find_loader key table)
unfolding find_loader set_loader
find-set_loader key k loader [] = refl
find-set_loader key k loader ((j, l) ∷ rest) = elim (Bool-cases (str_eq j k)) [
  | inl e ↦ (let same : j ≡ k = (eq_iff j k).0 e in rw e (by_key (Bool-cases (str_eq j key)) same))
  | inr e ↦ rw e (other e (find-set_loader key k loader rest))
]
  where
    by_key :
        (str_eq j key ≡ true) ⊎ (str_eq j key ≡ false)
        → j ≡ k
        → (if str_eq j key then some loader else find_loader key rest) ≡ (
            if str_eq k key
            then some loader
            else (if str_eq j key then some l else find_loader key rest))
    by_key (inl f) same =
        let g : str_eq k key ≡ true = subst (λ z. str_eq z key ≡ true) same f in rw (f, g)
    by_key (inr f) same =
        let g : str_eq k key ≡ false = subst (λ z. str_eq z key ≡ false) same f in rw (f, g)

    other :
        str_eq j k ≡ false
        → find_loader key (set_loader k loader rest)
          ≡ (if str_eq k key then some loader else find_loader key rest)
        → (if str_eq j key then some l else find_loader key (set_loader k loader rest)) ≡ (
            if str_eq k key
            then some loader
            else (if str_eq j key then some l else find_loader key rest))
    other e ih = elim (Bool-cases (str_eq j key)) [
      | inr f ↦ rw f ih
      | inl f ↦ elim (Bool-cases (str_eq k key)) [
        | inr g ↦ rw (f, g)
        | inl g ↦ absurd (
            let same : str_eq j k ≡ true =
              subst (λ z. str_eq j z ≡ true) (sym ((eq_iff k key).0 g)) f in
            cc (same, e))
      ]
    ]

find-set_each :
    (normal : String → String) (key : String) (ks : List String) (loader : Loader) (table : Table)
    → find_loader key (set_each normal ks loader table)
      ≡ (if any (λ k. str_eq (normal k) key) ks then some loader else find_loader key table)
unfolding set_each
find-set_each normal key [] loader table = refl
find-set_each normal key (k ∷ ks) loader table =
    find-set_each normal key ks loader (set_loader (normal k) loader table)
    ∙ ap (λ found. if any (λ j. str_eq (normal j) key) ks then some loader else found)
        (find-set_loader key (normal k) loader table)
    ∙ regroup (any (λ j. str_eq (normal j) key) ks) (str_eq (normal k) key)
  where
    regroup :
        (later here : Bool)
        → (if later then some loader else (if here then some loader else find_loader key table))
          ≡ (if here || later then some loader else find_loader key table)
    regroup true true = refl
    regroup true false = refl
    regroup false true = refl
    regroup false false = refl

registered :
    (normal : String → String) (key m : String) (ks : List String)
    → In m ks
    → key ≡ normal m
    → any (λ k. str_eq (normal k) key) ks ≡ true
registered normal key m [] i e = elim i [ ]
registered normal key m (k ∷ ks) (inl same) e =
    let here : str_eq (normal k) key ≡ true =
      subst (λ z. str_eq (normal k) z ≡ true) (sym (e ∙ ap normal same)) (eq_refl (normal k)) in
    rw here
registered normal key m (k ∷ ks) (inr later) e =
    let ih = registered normal key m ks later e in ground arith

-- After a loader is registered under MIME types, a request with one of them, up to its parameters, white
-- space and case, gets that loader, whatever the content and the file name are, and whatever was
-- registered before. Any key finds that loader in the two tables exactly if it is one of the types or
-- extensions that were registered, and otherwise what it found before.
pub get_loader-register :
    (lower suffix : String → String) (loader : Loader) (mime_types extensions : List String)
    (is_fallback : Bool) (r : LoaderRegistry) (content : Bytes) (mime_type m key : String)
    (filename : Option String)
    → no_text mime_type ≡ false
    → In m mime_types
    → lower (strip (before_semicolon mime_type)) ≡ lower m
    → (get_loader lower suffix content
          (some mime_type)
          filename
          (register lower loader mime_types extensions is_fallback r)
        ≡ ok loader)
      × (find_loader key (register lower loader mime_types extensions is_fallback r).mime ≡ (
          if any (λ k. str_eq (lower k) key) mime_types
          then some loader
          else find_loader key r.mime))
      × (find_loader key (register lower loader mime_types extensions is_fallback r).extension ≡ (
          if any (λ k. str_eq (strip_dots (lower k)) key) extensions
          then some loader
          else find_loader key r.extension))
unfolding get_loader register by_mime
get_loader-register lower suffix loader mime_types extensions is_fallback r content mime_type m key
      filename given i same =
    let base = lower (strip (before_semicolon mime_type)) in
    let there = registered lower base m mime_types i same in
    let found : find_loader base (set_each lower mime_types loader r.mime) ≡ some loader =
      find-set_each lower base mime_types loader r.mime ∙ (rw there) in
    (
      rw (given, found),
      find-set_each lower key mime_types loader r.mime,
      find-set_each (λ ext. strip_dots (lower ext)) key extensions loader r.extension,
    )
