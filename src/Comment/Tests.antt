-- ===== src/Comment/Tests.antt =====
-- The theorems on the size guard at concrete comments.
use fixor.Prelude.{
  ℕ, zero, suc, ◌+◌, ◌≤◌, ◌≡◌, refl, [], ◌∷◌, arith, length, take, length-append, codes, decimal,
}
use fixor.Comment.{
  Text, trim_end, search, truncate_utf8_to_max_bytes, split_last, marker, notice, suffix_of,
  apply_comment_size_guard,
}
use fixor.Comment.Search.{IsByteLength, IsLongest, truncate-IsLongest}
use fixor.Comment.Limit.{IsGuarded, apply_comment_size_guard-IsGuarded}

-- The byte length of an ASCII text.
ascii : IsByteLength length
ascii = record {
  empty = refl;
  of_prefix = λ s t. omega (arith, length-append s t);
  of_append = λ s t. omega (arith, length-append s t);
}

cut : truncate_utf8_to_max_bytes length (codes "abc def") 4 ≡ codes "abc"
unfolding truncate_utf8_to_max_bytes search trim_end
cut = refl

truncate-IsLongest_example :
    (n : ℕ) × IsLongest length ascii (codes "abc def") 4 n
    × (truncate_utf8_to_max_bytes length (codes "abc def") 4 ≡ trim_end (take n (codes "abc def")))
truncate-IsLongest_example = truncate-IsLongest length ascii (codes "abc def") 4 (omega arith)

abbrev letters : ℕ → Text
letters zero = []
letters (suc n) = b'a' ∷ letters n

abbrev long : Text
long = letters 4600

room :
    length (notice (length long) 4500) + length (suffix_of (split_last marker long)) + 4160 ≤ 4500
unfolding notice split_last decimal
room = omega arith

apply_comment_size_guard-IsGuarded_example :
    IsGuarded length ascii long 4500 (apply_comment_size_guard length long 4500)
apply_comment_size_guard-IsGuarded_example =
    apply_comment_size_guard-IsGuarded length ascii long 4500 room
