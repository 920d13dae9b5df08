-- ===== src/Json/Context/Spaces.antt =====
-- `SkipSpaces` over a blank text, and `MatchLiteral` over the literal itself.
use litetvm_ffi.Prelude.{ℕ, zero, suc, [], ◌∷◌, ◌++◌, true, false, ◌≡◌, refl, Bytes, All, replicate}
use litetvm_ffi.Json.Context.{Context, put, is_space, skip_space, skip_spaces_loop, skip_spaces}

abbrev pub IsBlank : Bytes → Type 0
IsBlank = All (λ x. is_space x ≡ true)

-- A text that does not begin with a space.
abbrev pub IsSolid : Bytes → Type 0
IsSolid [] = Unit
IsSolid (x ∷ s) = is_space x ≡ false

skip_spaces_loop-blank :
    (ws t : Bytes) (c : Context)
    → c.cur.rest ≡ ws ++ t
    → IsBlank ws
    → IsSolid t
    → (skip_spaces_loop (ws ++ t) c).cur.rest ≡ t
unfolding skip_spaces_loop
skip_spaces_loop-blank [] [] c e h solid = e
skip_spaces_loop-blank [] (x ∷ s) c e h solid = rw solid e
skip_spaces_loop-blank (x ∷ ws) t c e h solid =
    rw h.0
      (skip_spaces_loop-blank ws t (skip_space x (ws ++ t) c) (unfold skip_space in refl) h.1 solid)

-- The spaces in front of a text are skipped, and no more.
pub skip_spaces-blank :
    (ws t : Bytes) (c : Context)
    → IsBlank ws
    → IsSolid t
    → (skip_spaces (put (ws ++ t) c)).cur.rest ≡ t
unfolding skip_spaces
skip_spaces-blank ws t c = skip_spaces_loop-blank ws t (put (ws ++ t) c) refl

pub replicate-IsBlank : (n : ℕ) → IsBlank (replicate n b' ')
replicate-IsBlank zero = tt
replicate-IsBlank (suc n) = (refl, replicate-IsBlank n)
