-- ===== src/Db/Like/Tests.antt =====
-- The prefix search of internal/db/queries.go on small keys.
use gha_cache_server.Base.{◌≡◌, refl, true, false, [], ◌∷◌, ◌++◌, map, codes, has_prefix}
use gha_cache_server.Db.Like.{escape_like, like_from, like}
use gha_cache_server.Db.Like.Prefix.{like-escape_like}
use gha_cache_server.Db.State.{sqlite, postgres, like_fold}

escape_like-run : escape_like (codes "a%b_c") ≡ codes "a\\%b\\_c"
unfolding escape_like
escape_like-run = refl

-- The `_` of the key stands for itself, and not for any byte.
like-run : like (like_fold postgres) (codes "go\\_%") (codes "go-1") ≡ false
unfolding like like_fold like_from
like-run = refl

-- On SQLite a key finds an entry whose key has other letters.
like-folds : like (like_fold sqlite) (codes "Linux-%") (codes "linux-1") ≡ true
unfolding like like_fold like_from
like-folds = refl

like-escape_like_example :
    like (like_fold postgres) (escape_like (codes "go_") ++ b'%' ∷ []) (codes "go_mod")
    ≡ has_prefix
        (map (like_fold postgres) (codes "go_"))
        (map (like_fold postgres) (codes "go_mod"))
like-escape_like_example = like-escape_like (like_fold postgres) (codes "go_") (codes "go_mod")
