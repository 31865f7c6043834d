-- ===== src/Base/Spaces.antt =====
-- `strings.TrimSpace`: the white space of Unicode in UTF-8, taken off both ends of a text.
use mathlib.Core.List.{reverse}
use Prim.Native.Nat.{ℕ, zero, suc}
use mathlib.Core.Path.{◌≡◌, refl}
use mathlib.Core.Bool.{Bool, ◌&&◌, ◌||◌}
use mathlib.Core.List.{[], ◌∷◌}
use gha_cache_server.Base.Tests.{leb, ◌==◌, if◌then◌else◌}
use gha_cache_server.Base.Lists.{length, drop}
use gha_cache_server.Base.Strings.{Bytes}

-- The white space of one, two and three bytes.
abbrev pub is_space : ℕ → Bool
is_space a = a == 32 || (leb 9 a && leb a 13)

abbrev pub is_space_2 : ℕ → ℕ → Bool
is_space_2 a b = a == 0xC2 && (b == 0x85 || b == 0xA0)

-- U+1680, U+2000 to U+200A, U+2028, U+2029, U+202F, U+205F and U+3000
abbrev pub is_space_3 : ℕ → ℕ → ℕ → Bool
is_space_3 a b c =
    (a == 0xE1 && b == 0x9A && c == 0x80)
    || (a == 0xE2
        && b == 0x80
        && ((leb 0x80 c && leb c 0x8A) || c == 0xA8 || c == 0xA9 || c == 0xAF))
    || (a == 0xE2 && b == 0x81 && c == 0x9F)
    || (a == 0xE3 && b == 0x80 && c == 0x80)

-- The bytes of the white space that a text begins with; 0 where it begins with another character.
unfoldable pub space_at : Bytes → ℕ
space_at [] = 0
space_at (a ∷ []) = if is_space a then 1 else 0
space_at (a ∷ b ∷ []) = if is_space a then 1 else if is_space_2 a b then 2 else 0
space_at (a ∷ b ∷ c ∷ s) =
    if is_space a then 1 else if is_space_2 a b then 2 else if is_space_3 a b c then 3 else 0

-- The same for the end of a text, which is given from its last byte on.
unfoldable pub space_before : Bytes → ℕ
space_before [] = 0
space_before (a ∷ []) = if is_space a then 1 else 0
space_before (b ∷ a ∷ []) = if is_space b then 1 else if is_space_2 a b then 2 else 0
space_before (c ∷ b ∷ a ∷ s) =
    if is_space c then 1 else if is_space_2 b c then 2 else if is_space_3 a b c then 3 else 0

-- A round for each byte is enough, since a round takes off a byte at least.
unfoldable pub trim_with : (Bytes → ℕ) → ℕ → Bytes → Bytes
trim_with spaces zero s = s
trim_with spaces (suc f) s =
    let rest = trim_with spaces f (drop (spaces s) s) in if spaces s == 0 then s else rest

unfoldable pub trim_space : Bytes → Bytes
unfolding space_at space_before trim_with
trim_space s =
    let front = trim_with space_at (length s) s in
    reverse (trim_with space_before (length front) (reverse front))

pub trim_with-kept :
    (spaces : Bytes → ℕ) (f : ℕ) (s : Bytes) → spaces s ≡ 0 → trim_with spaces f s ≡ s
unfolding trim_with
trim_with-kept spaces zero s e = refl
trim_with-kept spaces (suc f) s e = rw e refl
