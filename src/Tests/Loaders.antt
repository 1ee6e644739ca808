-- ===== src/Tests/Loaders.antt =====
-- A registry with a loader of text and one of PDF.
use text.Mathlib.Text.{◌==◌ as str_eq}
use z3rno_core.Prelude.{◌≡◌, refl, false, String, some, [], ◌∷◌, any, if◌then◌else◌, inl, inr}
use z3rno_core.Result.{ok}
use z3rno_core.Text.{strip}
use z3rno_core.Loaders.Registry.{
  Loader, LoaderRegistry, find_loader, strip_dots, before_semicolon, register, get_loader,
  sniff_mime_type,
}
use z3rno_core.Loaders.Registry.Registered.{get_loader-register}

abbrev same : String → String
same s = s

abbrev no_suffix : String → String
no_suffix s = ""

abbrev text_loader : Loader
text_loader = record { id = 1; name = "plain" }

abbrev pdf_loader : Loader
pdf_loader = record { id = 2; name = "pdf" }

abbrev texts : LoaderRegistry
texts = record {
  mime = ("text/plain", text_loader) ∷ [];
  extension = ("txt", text_loader) ∷ [];
  fallback = some text_loader;
}

sniffed : sniff_mime_type (b'%' ∷ b'P' ∷ b'D' ∷ b'F' ∷ b'-' ∷ b'1' ∷ []) ≡ some "application/pdf"
unfolding sniff_mime_type
sniffed = refl

parameters : strip (before_semicolon "text/x; charset=utf-8") ≡ "text/x"
unfolding strip before_semicolon
parameters = refl

get_loader-register_example :
    (get_loader same no_suffix []
        (some "text/x; charset=utf-8")
        (some "a.txt")
        (register same pdf_loader ("application/pdf" ∷ "text/x" ∷ []) (".pdf" ∷ []) false texts)
      ≡ ok pdf_loader)
    × (find_loader "text/plain"
          (register same pdf_loader
            ("application/pdf" ∷ "text/x" ∷ [])
            (".pdf" ∷ [])
            false
            texts).mime
        ≡ (if any (λ k. str_eq k "text/plain") ("application/pdf" ∷ "text/x" ∷ [])
            then some pdf_loader
            else find_loader "text/plain" texts.mime))
    × (find_loader "text/plain"
          (register same pdf_loader
            ("application/pdf" ∷ "text/x" ∷ [])
            (".pdf" ∷ [])
            false
            texts).extension
        ≡ (if any (λ k. str_eq (strip_dots k) "text/plain") (".pdf" ∷ [])
            then some pdf_loader
            else find_loader "text/plain" texts.extension))
get_loader-register_example =
    get_loader-register same no_suffix pdf_loader ("application/pdf" ∷ "text/x" ∷ []) (".pdf" ∷ [])
      false texts [] "text/x; charset=utf-8" "text/x" "text/plain" (some "a.txt") refl
      (inr (inl refl)) parameters
