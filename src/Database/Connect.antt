-- ===== src/Database/Connect.antt =====
-- internal/database/database.go: the connection string and the settings of the pool that New makes.
-- Opening the connection and the migration are gorm's.
pub mod Escaped
use git_lfs_server.Base.{
  ℕ, ◌+◌, ◌-◌, ◌*◌, ◌/◌, ◌%◌, ◌^◌, Bool, ◌&&◌, ◌||◌, Option, none, some, List, [], ◌∷◌, ◌++◌, ltb,
  leb, ◌==◌, if◌then◌else◌,
}
use git_lfs_server.Base.Int.{ℤ, pos, ltb_ℤ, bits, of_bits}
use git_lfs_server.Base.Text.{Str, str}
use git_lfs_server.Storage.Url.{upper_hex}
use git_lfs_server.Storage.Decimal.{format_int}

-- Config
pub record Config : Type 0 where
  pub host : Str
  pub port : ℤ
  pub name : Str
  pub user : Str
  pub password : Str
  pub ssl_mode : Str
  pub max_open_conns : ℤ
  pub max_idle_conns : ℤ
  pub conn_max_lifetime : ℤ
  pub conn_max_idle_time : ℤ

-- What url.QueryEscape leaves as it is.
abbrev pub is_unreserved : ℕ → Bool
is_unreserved c =
    (leb b'a' c && leb c b'z')
    || (leb b'A' c && leb c b'Z')
    || (leb b'0' c && leb c b'9')
    || c == b'-'
    || c == b'_'
    || c == b'.'
    || c == b'~'

-- url.QueryEscape: a space is "+"
unfoldable pub query_escape : Str → Str
query_escape [] = []
query_escape (c ∷ s) =
    let rest = query_escape s in
    if is_unreserved c
    then c ∷ rest
    else if c == b' '
    then b'+' ∷ rest
    else b'%' ∷ upper_hex (c / 16) ∷ upper_hex (c % 16) ∷ rest

-- The fmt.Sprintf of New.
unfoldable pub dsn : Config → Str
dsn cfg =
    str "postgres://"
    ++ (query_escape cfg.user
        ++ b':'
          ∷ (query_escape cfg.password
              ++ b'@'
                ∷ (cfg.host
                    ++ b':'
                      ∷ (format_int cfg.port
                          ++ b'/'
                            ∷ (query_escape cfg.name
                                ++ (str "?sslmode="
                                    ++ (cfg.ssl_mode ++ str "&application_name=lfsd")))))))

-- What New sets of a sql.DB: the numbers of connections, and the durations in nanoseconds; `none` is
-- left at its default.
pub record Pool : Type 0 where
  pub max_open : Option ℤ
  pub max_idle : Option ℤ
  pub max_lifetime : Option ℤ
  pub max_idle_time : Option ℤ

abbrev pub is_positive : ℤ → Bool
is_positive n = ltb_ℤ (pos 0) n

abbrev pub if_positive : ℤ → ℤ → Option ℤ
if_positive n v = if is_positive n then some v else none

-- time.Duration(n) * time.Minute, which wraps around
unfoldable pub minutes : ℤ → ℤ
minutes n = of_bits (bits n * 60000000000 % 2 ^ 64)

unfoldable pub pool : Config → Pool
pool cfg = record {
  max_open = if_positive cfg.max_open_conns cfg.max_open_conns;
  max_idle = if_positive cfg.max_idle_conns (
      if is_positive cfg.max_open_conns && ltb_ℤ cfg.max_open_conns cfg.max_idle_conns
      then cfg.max_open_conns
      else cfg.max_idle_conns);
  max_lifetime = if_positive cfg.conn_max_lifetime (minutes cfg.conn_max_lifetime);
  max_idle_time = if_positive cfg.conn_max_idle_time (minutes cfg.conn_max_idle_time);
}
