-- ===== src/Db/Like.antt =====
-- `escapeLike` of internal/db/queries.go, and the SQL operator `LIKE … ESCAPE '\'` that reads its
-- result. Letters are compared through `fold`: PostgreSQL compares them as they are, and SQLite
-- takes the upper and lower case letters of ASCII for equal.
pub mod Prefix
mod Tests
use gha_cache_server.Base.{
  ℕ, suc, ◌+◌, ◌≡◌, refl, inl, inr, Bool, true, false, ◌&&◌, ◌||◌, List, [], ◌∷◌, ◌++◌, map, ◌==◌,
  if◌then◌else◌, leb, Bool-cases, Bytes, codes, is_empty, has_prefix, arith,
}

abbrev pub backslash : ℕ
backslash = 92

-- `strings.NewReplacer` with one-byte patterns replaces each byte by itself.
unfoldable pub escape_like : Bytes → Bytes
escape_like [] = []
escape_like (c ∷ s) =
    let rest = escape_like s in
    if c == backslash
    then backslash ∷ backslash ∷ rest
    else if c == b'%'
    then backslash ∷ b'%' ∷ rest
    else if c == b'_'
    then backslash ∷ b'_' ∷ rest
    else c ∷ rest

-- `%`: some suffix of the text is matched by the rest of the pattern.
abbrev any_suffix : (Bytes → Bool) → Bytes → Bool
any_suffix rest [] = rest []
any_suffix rest (x ∷ t) = rest (x ∷ t) || any_suffix rest t

-- `_`: any one byte.
abbrev any_byte : (Bytes → Bool) → Bytes → Bool
any_byte rest [] = false
any_byte rest (x ∷ t) = rest t

module _ (fold : ℕ → ℕ) where
  -- A byte that stands for itself.
  abbrev this_byte : ℕ → (Bytes → Bool) → Bytes → Bool
  this_byte c rest [] = false
  this_byte c rest (x ∷ t) = fold c == fold x && rest t

  -- The operator; the flag says that the byte before was the escape character.
  unfoldable pub like_from : Bool → Bytes → Bytes → Bool
  like_from true [] t = false
  like_from true (c ∷ p) t = this_byte c (like_from false p) t
  like_from false [] t = is_empty t
  like_from false (c ∷ p) t =
      if c == backslash
      then like_from true p t
      else if c == b'%'
      then any_suffix (like_from false p) t
      else if c == b'_'
      then any_byte (like_from false p) t
      else this_byte c (like_from false p) t

  unfoldable pub like : Bytes → Bytes → Bool
  like = like_from false
