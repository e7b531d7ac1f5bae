-- ===== src/Storage/Decimal.antt =====
-- strconv.FormatInt of an int64 in base 10.
use git_lfs_server.Base.{ℕ, zero, suc, ◌+◌, ◌/◌, ◌%◌, [], ◌∷◌, ltb, if◌then◌else◌}
use git_lfs_server.Base.Int.{ℤ, pos, negsuc}
use git_lfs_server.Base.Text.{Str}

-- The digits of a number before those of `rest`; an int64 has at most 19.
unfoldable pub digits : ℕ → ℕ → Str → Str
digits zero n rest = rest
digits (suc f) n rest =
    let more = digits f (n / 10) ((b'0' + n % 10) ∷ rest) in
    if ltb n 10 then (b'0' + n) ∷ rest else more

unfoldable pub format_int : ℤ → Str
format_int (pos n) = digits 20 n []
format_int (negsuc n) = b'-' ∷ digits 20 (suc n) []
