-- ===== src/Loaders/Registry.antt =====
-- loaders/registry.py. `str.lower` and the suffix that `PurePosixPath` finds are parameters. A loader is
-- known by its name and by which object it is.
use Prim.Native.Char.{code}
use text.Mathlib.Text.{◌==◌ as str_eq, is_le}
use Prim.Native.String.{compare}
use z3rno_core.Prelude.{
  ℕ, zero, suc, Bool, true, false, not, ◌&&◌, ◌||◌, String, Option, none, some, List, [], ◌∷◌, ◌++◌,
  map, filter, any, take, drop, is_some, if◌then◌else◌, ◌==◌,
}
use z3rno_core.Prelude.Sort.{sort}
use z3rno_core.Models.{Bytes}
use z3rno_core.Result.{Result, ok, raise, unsupported_content_type}
use z3rno_core.Text.{no_text, strip}
pub mod Registered

pub record Loader : Type 0 where
  pub id : ℕ
  pub name : String

-- A dict from MIME types or extensions to loaders, in the order of insertion.
abbrev pub Table : Type 0
Table = List (String × Loader)

pub record LoaderRegistry : Type 0 where
  pub mime : Table
  pub extension : Table
  pub fallback : Option Loader

unfoldable pub set_loader : String → Loader → Table → Table
set_loader key loader [] = (key, loader) ∷ []
set_loader key loader ((k, l) ∷ rest) =
    let later = set_loader key loader rest in
    if str_eq k key then (k, loader) ∷ rest else (k, l) ∷ later

unfoldable pub find_loader : String → Table → Option Loader
find_loader key [] = none
find_loader key ((k, l) ∷ rest) =
    let later = find_loader key rest in if str_eq k key then some l else later

-- `ext.lstrip(".")`
unfoldable pub strip_dots : String → String
strip_dots String.[] = String.[]
strip_dots (String.◌∷◌ c s) =
    let rest = strip_dots s in if code c == 46 then rest else String.◌∷◌ c s

-- `mime_type.split(";", 1)[0]`
unfoldable pub before_semicolon : String → String
before_semicolon String.[] = String.[]
before_semicolon (String.◌∷◌ c s) =
    let rest = before_semicolon s in if code c == 59 then String.[] else String.◌∷◌ c rest

unfoldable pub set_each : (String → String) → List String → Loader → Table → Table
unfolding set_loader
set_each normal [] loader table = table
set_each normal (k ∷ ks) loader table =
    set_each normal ks loader (set_loader (normal k) loader table)

unfoldable pub register :
    (String → String) → Loader → List String → List String → Bool → LoaderRegistry → LoaderRegistry
unfolding set_each strip_dots
register lower loader mime_types extensions is_fallback r = record {
  mime = set_each lower mime_types loader r.mime;
  extension = set_each (λ ext. strip_dots (lower ext)) extensions loader r.extension;
  fallback = if is_fallback then some loader else r.fallback;
}

-- `content[:len(p)] == p`
abbrev pub begins : Bytes → Bytes → Bool
begins content [] = true
begins [] (b ∷ p) = false
begins (c ∷ content) (b ∷ p) = (c == b) && begins content p

-- `p in content`
abbrev holds : Bytes → Bytes → Bool
holds p [] = begins [] p
holds p (c ∷ content) = begins (c ∷ content) p || holds p content

abbrev pdf_magic : Bytes
pdf_magic = b'%' ∷ b'P' ∷ b'D' ∷ b'F' ∷ b'-' ∷ []

abbrev zip_magic : Bytes
zip_magic = b'P' ∷ b'K' ∷ 3 ∷ 4 ∷ []

abbrev docx_entry : Bytes
docx_entry =
    b'w' ∷ b'o' ∷ b'r' ∷ b'd' ∷ b'/' ∷ b'd' ∷ b'o' ∷ b'c' ∷ b'u' ∷ b'm' ∷ b'e' ∷ b'n' ∷ b't' ∷ b'.'
    ∷ b'x' ∷ b'm' ∷ b'l' ∷ []

abbrev png_magic : Bytes
png_magic = 0x89 ∷ b'P' ∷ b'N' ∷ b'G' ∷ 13 ∷ 10 ∷ 0x1a ∷ 10 ∷ []

abbrev gif_magic : ℕ → Bytes
gif_magic digit = b'G' ∷ b'I' ∷ b'F' ∷ b'8' ∷ digit ∷ b'a' ∷ []

abbrev riff_magic : Bytes
riff_magic = b'R' ∷ b'I' ∷ b'F' ∷ b'F' ∷ []

abbrev webp_magic : Bytes
webp_magic = b'W' ∷ b'E' ∷ b'B' ∷ b'P' ∷ []

abbrev wave_magic : Bytes
wave_magic = b'W' ∷ b'A' ∷ b'V' ∷ b'E' ∷ []

-- The prefixes are tried in turn.
unfoldable pub sniff_mime_type : Bytes → Option String
sniff_mime_type content =
    if begins content pdf_magic
    then some "application/pdf"
    else if begins content zip_magic
    then (if holds docx_entry (take 8192 content)
        then some "application/vnd.openxmlformats-officedocument.wordprocessingml.document"
        else some "application/zip")
    else if begins content (0xff ∷ 0xd8 ∷ 0xff ∷ [])
    then some "image/jpeg"
    else if begins content png_magic
    then some "image/png"
    else if begins content (gif_magic b'7') || begins content (gif_magic b'9')
    then some "image/gif"
    else if begins content riff_magic && begins (drop 8 content) webp_magic
    then some "image/webp"
    else if begins content (b'I' ∷ b'D' ∷ b'3' ∷ [])
        || (begins content (0xff ∷ 0xfb ∷ []) || begins content (0xff ∷ 0xf3 ∷ []))
    then some "audio/mpeg"
    else if begins content riff_magic && begins (drop 8 content) wave_magic
    then some "audio/wav"
    else if begins content (b'f' ∷ b'L' ∷ b'a' ∷ b'C' ∷ [])
    then some "audio/flac"
    else if begins content (b'O' ∷ b'g' ∷ b'g' ∷ b'S' ∷ [])
    then some "audio/ogg"
    else none

abbrev pub or_else : Option Loader → Option Loader → Option Loader
or_else none next = next
or_else (some l) next = some l

-- The explicit MIME type, where it is given and registered.
unfoldable pub by_mime : (String → String) → Option String → LoaderRegistry → Option Loader
unfolding find_loader before_semicolon strip
by_mime lower none r = none
by_mime lower (some m) r =
    if no_text m then none else find_loader (lower (strip (before_semicolon m))) r.mime

abbrev pub by_sniffed : Option String → LoaderRegistry → Option Loader
by_sniffed none r = none
by_sniffed (some m) r = find_loader m r.mime

unfoldable pub by_extension :
    (String → String) → (String → String) → Option String → LoaderRegistry → Option Loader
unfolding find_loader strip_dots
by_extension lower suffix none r = none
by_extension lower suffix (some filename) r =
    if no_text filename || no_text (strip_dots (lower (suffix filename)))
    then none
    else find_loader (strip_dots (lower (suffix filename))) r.extension

abbrev pub or_unsupported : Option Loader → Result Loader
or_unsupported none = raise unsupported_content_type
or_unsupported (some l) = ok l

unfoldable pub get_loader :
    (String → String)
    → (String → String)
    → Bytes
    → Option String
    → Option String
    → LoaderRegistry
    → Result Loader
unfolding by_mime sniff_mime_type find_loader by_extension
get_loader lower suffix content mime_type filename r = or_unsupported (
    or_else (by_mime lower mime_type r) (
      or_else (by_sniffed (sniff_mime_type content) r)
        (or_else (by_extension lower suffix filename r) r.fallback)))

-- `sorted` on texts.
abbrev text_le : String → String → Bool
text_le a b = is_le (compare a b)

unfoldable pub known_mime_types : LoaderRegistry → List String
unfolding sort
known_mime_types r = sort text_le (map (λ e. e.0) r.mime)

unfoldable pub known_extensions : LoaderRegistry → List String
unfolding sort
known_extensions r = sort text_le (map (λ e. e.0) r.extension)
