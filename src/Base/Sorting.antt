-- ===== src/Base/Sorting.antt =====
-- `Vec::sort` on strings. Equal strings are interchangeable, so any stable sort is this one.
use mathlib.Core.Path.{◌≡◌, refl, ◌∙◌}
use mathlib.Core.List.{List, [], ◌∷◌, Permᴰ}
use native.Mathlib.Omega.{arith}
use muna_server.Base.Tests.{if◌then◌else◌}
use muna_server.Base.Texts.{Text, text_leb, text_leb_total, text_leb_antisym, text_leb_trans}

pub insert_sorted : Text → List Text → List Text
insert_sorted s [] = s ∷ []
insert_sorted s (t ∷ ts) =
    let rest = insert_sorted s ts in if text_leb s t then s ∷ t ∷ ts else t ∷ rest

unfoldable pub sort : List Text → List Text
unfolding insert_sorted
sort [] = []
sort (s ∷ ss) = insert_sorted s (sort ss)

insert_comm :
    (s t : Text) (us : List Text)
    → insert_sorted s (insert_sorted t us) ≡ insert_sorted t (insert_sorted s us)
unfolding insert_sorted
insert_comm s t [] = ground (arith, text_leb_total s t, text_leb_antisym s t)
insert_comm s t (u ∷ us) = ground (
  arith,
  insert_comm s t us,
  text_leb_total s t,
  text_leb_antisym s t,
  text_leb_trans s t u,
  text_leb_trans t s u,
  text_leb_total s u,
  text_leb_total t u,
)

-- Sorting forgets the order in which a hash map was walked.
pub sort-Permᴰ : {ss ts : List Text} → Permᴰ ss ts → sort ss ≡ sort ts
unfolding sort
sort-Permᴰ Permᴰ.nil = refl
sort-Permᴰ (Permᴰ.cons {a = s} {b = t} {l₁ = us} {l₂ = vs} e d) = rw (e, sort-Permᴰ d) refl
sort-Permᴰ (Permᴰ.swap {a = s} {b = t} {l = us} e f) = rw (e, f) (insert_comm _ _ (sort us))
sort-Permᴰ (Permᴰ.trans d e) = sort-Permᴰ d ∙ sort-Permᴰ e
