-- ===== src/Tests/Texts.antt =====
-- Decisions for the conditions on texts, so that the tests have them by computation.
use Prim.Native.Char.{code}
use Prim.Native.String.{[] as nil_text, ◌∷◌ as ◌∷ₛ◌}
use namespace_class.Base.{ℕ, String, ◌≡◌, Bool, true, not, ◌&&◌, arith, nat_eq}
use namespace_class.Base.Chars.{is_space}
use namespace_class.Base.Chars.Laws.{Lacks, IsSolid}

abbrev pub avoids : ℕ → String → Bool
avoids k nil_text = true
avoids k (c ∷ₛ s) = not (nat_eq (code c) k) && avoids k s

pub avoids-Lacks : (k : ℕ) (s : String) → avoids k s ≡ true → Lacks k s
avoids-Lacks k nil_text h = tt
avoids-Lacks k (c ∷ₛ s) h = (ground (arith, h), avoids-Lacks k s (ground (arith, h)))

unfoldable pub solid : String → Bool
solid nil_text = true
solid (c ∷ₛ s) = not (is_space (code c)) && solid s

pub solid-IsSolid : (s : String) → solid s ≡ true → IsSolid s
unfolding solid
solid-IsSolid nil_text h = tt
solid-IsSolid (c ∷ₛ s) h = (ground (arith, h), solid-IsSolid s (ground (arith, h)))
