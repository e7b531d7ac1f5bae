-- ===== src/Database/Connect/Escaped.antt =====
-- internal/database/database.go: what a client of the connection string reads back, by net/url, and
-- how the settings of the pool bound each other.
use git_lfs_server.Base.{
  ◌/◌, ◌%◌, Bool, not, ◌||◌, all, ◌++◌, ℕ, ◌*◌, ◌^◌, ◌<◌, ◌≡◌, refl, true, false, some, [], ◌∷◌,
  map, ◌==◌, arith, if◌then◌else◌, Bool-cases, inl, inr,
}
use git_lfs_server.Base.Int.{ℤ, pos, ltb_ℤ}
use git_lfs_server.Base.Text.{Str, str}
use git_lfs_server.Iox.Hex.Round.{AreBytes}
use git_lfs_server.Storage.Url.{unescape, upper_hex}
use git_lfs_server.Storage.Url.Safe.{all-cons, all-escaped}
use git_lfs_server.Storage.Decimal.{format_int}
use git_lfs_server.Storage.Url.Escape.{unescape-nil, unescape-plain, unescape-byte}
use git_lfs_server.Database.Connect.{
  Config, is_unreserved, query_escape, dsn, minutes, pool, is_positive,
}

-- A "+" stands for itself in the user, the password and the path of an URL.
abbrev pub space_to_plus : ℕ → ℕ
space_to_plus c = if c == b' ' then b'+' else c

unescape-query_escape :
    (s : Str) → AreBytes s → unescape (query_escape s) ≡ some (map space_to_plus s)
unfolding query_escape
unescape-query_escape [] h = unescape-nil
unescape-query_escape (c ∷ s) h =
    let rest = unescape-query_escape s h.1 in
    elim (Bool-cases (is_unreserved c)) [
      | inl e ↦ rw (e, unescape-plain c (query_escape s) _ (ground arith) rest) (ground arith)
      | inr e ↦ elim (Bool-cases (c == b' ')) [
        | inl k ↦ rw (e, k, unescape-plain b'+' (query_escape s) _ refl rest) refl
        | inr k ↦ rw (e, k, unescape-byte c (query_escape s) _ h.0 rest) refl
      ]
    ]

-- A byte that neither ends a part of the URL before its query, nor starts the next.
abbrev pub is_part_byte : ℕ → Bool
is_part_byte c = not (c == b':' || c == b'@' || c == b'/' || c == b'?' || c == b'#')

unreserved-part : (c : ℕ) → is_unreserved c ≡ true → is_part_byte c ≡ true
unreserved-part c h = ground arith

hex-part : (n : ℕ) → n < 16 → is_part_byte (upper_hex n) ≡ true
unfolding upper_hex
hex-part n h = ground arith

query_escape-part : (s : Str) → AreBytes s → all is_part_byte (query_escape s) ≡ true
unfolding query_escape
query_escape-part [] h = refl
query_escape-part (c ∷ s) h =
    let rest = query_escape-part s h.1 in
    elim (Bool-cases (is_unreserved c)) [
      | inl e ↦ rw e (all-cons is_part_byte c (query_escape s) (unreserved-part c e) rest)
      | inr e ↦ elim (Bool-cases (c == b' ')) [
        | inl k ↦ rw (e, k) (all-cons is_part_byte b'+' (query_escape s) refl rest)
        | inr k ↦
            let low = hex-part (c % 16) (omega arith) in
            let high = hex-part (c / 16) (omega (arith, h.0)) in
            rw (e, k)
              (all-escaped is_part_byte (upper_hex (c / 16)) (upper_hex (c % 16)) (query_escape s)
                refl high low rest)
      ]
    ]

-- A part of the connection string that is read back as a setting, with a "+" for each space.
abbrev pub Reads : Str → Str → Type 0
Reads part setting =
    (unescape part ≡ some (map space_to_plus setting)) × (all is_part_byte part ≡ true)

abbrev pub IsConnection : Config → Str → Type 0
IsConnection cfg url =
    (user : Str) × (password : Str) × (name : Str) × ((url
        ≡ str "postgres://"
          ++ (user
              ++ b':'
                ∷ (password
                    ++ b'@'
                      ∷ (cfg.host
                          ++ b':'
                            ∷ (format_int cfg.port
                                ++ b'/'
                                  ∷ (name
                                      ++ (str "?sslmode="
                                          ++ (cfg.ssl_mode ++ str "&application_name=lfsd"))))))))
      × Reads user cfg.user
      × Reads password cfg.password
      × Reads name cfg.name)

-- Where the user, the password and the name of the database are bytes, the connection string of New
-- is "postgres://", a user, ":", a password, "@", the host, ":", the port, "/", a name, and the
-- query with the SSL mode as given. net/url reads the three back as the settings, with a "+" for
-- each space, and none of them has a ":", "@", "/", "?" or "#", which would end it.
pub dsn-IsConnection :
    (cfg : Config)
    → AreBytes cfg.user
    → AreBytes cfg.password
    → AreBytes cfg.name
    → IsConnection cfg (dsn cfg)
unfolding dsn
dsn-IsConnection cfg user password name = (
  query_escape cfg.user,
  query_escape cfg.password,
  query_escape cfg.name,
  (
    refl,
    (unescape-query_escape cfg.user user, query_escape-part cfg.user user),
    (unescape-query_escape cfg.password password, query_escape-part cfg.password password),
    (unescape-query_escape cfg.name name, query_escape-part cfg.name name),
  ),
)

-- Where both limits of connections are set, the limit of idle ones is positive, and at most the
-- limit of open ones.
pub pool-max_idle :
    (cfg : Config) (idle open_ : ℤ)
    → (pool cfg).max_idle ≡ some idle
    → (pool cfg).max_open ≡ some open_
    → (is_positive idle ≡ true) × (ltb_ℤ open_ idle ≡ false)
unfolding pool
pool-max_idle cfg idle open_ h k = ground arith

-- A number of minutes that fits is that many nanoseconds.
pub minutes-fits : (n : ℕ) → n * 60000000000 < 2 ^ 63 → minutes (pos n) ≡ pos (n * 60000000000)
unfolding minutes
minutes-fits n h = ground arith
