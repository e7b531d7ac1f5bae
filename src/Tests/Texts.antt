-- ===== src/Tests/Texts.antt =====
-- Encodings, the connection to the database, and the log at concrete inputs.
use git_lfs_server.Base.{◌≡◌, ◌++◌, none, List, [], ◌∷◌, true, arith}
use git_lfs_server.Base.Int.{pos}
use git_lfs_server.Base.Text.{Str, str}
use git_lfs_server.Iox.Hex.Round.{AreBytes}
use git_lfs_server.Forge.GitLab.{gitlab_smart_http_url}
use git_lfs_server.Forge.GitLab.Path.{IsServiceUrl, gitlab_smart_http_url-IsServiceUrl}
use git_lfs_server.Database.Connect.{Config, dsn}
use git_lfs_server.Database.Connect.Escaped.{IsConnection, dsn-IsConnection}
use git_lfs_server.Logging.{Sink, sink, level_info, handle, with_attrs, scoped}
use git_lfs_server.Logging.Scopes.{scoped-with_attrs}

-- A password with a space.
abbrev password : Str
password = b'p' ∷ b' ' ∷ b'%' ∷ []

password-AreBytes : AreBytes password
password-AreBytes = (omega arith, (omega arith, (omega arith, tt)))

abbrev settings : Config
settings = record {
  host = str "h";
  port = pos 5432;
  name = str "lfs";
  user = str "u:";
  password = password;
  ssl_mode = str "disable";
  max_open_conns = pos 0;
  max_idle_conns = pos 0;
  conn_max_lifetime = pos 0;
  conn_max_idle_time = pos 0;
}

user-AreBytes : AreBytes (str "u:")
unfolding str
user-AreBytes = (omega arith, (omega arith, tt))

name-AreBytes : AreBytes (str "lfs")
unfolding str
name-AreBytes = (omega arith, (omega arith, (omega arith, tt)))

dsn-IsConnection_example : IsConnection settings (dsn settings)
dsn-IsConnection_example = dsn-IsConnection settings user-AreBytes password-AreBytes name-AreBytes

gitlab_smart_http_url-IsServiceUrl_example :
    IsServiceUrl
      (str "https://h")
      password
      (str "git-upload-pack")
      (gitlab_smart_http_url (str "https://h") password (str "git-upload-pack"))
gitlab_smart_http_url-IsServiceUrl_example =
    gitlab_smart_http_url-IsServiceUrl (str "https://h") password (str "git-upload-pack")
      password-AreBytes

-- A sink that keeps its messages.
abbrev kept : Sink (List Str) (List Str) (List Str)
kept = record {
  enabled = λ level h. true;
  handle = λ r h w. (none, r.message ∷ w);
  with_attrs = λ attrs h. attrs ++ h;
  with_group = λ name h. h;
}

scoped-with_attrs_example :
    handle kept
      (record { level = level_info; message = b'm' ∷ []; fields = [] })
      (with_attrs kept [] (scoped (b'a' ∷ []) (sink [])))
      []
    ≡ (none, (b'[' ∷ b'a' ∷ str "] " ++ b'm' ∷ []) ∷ [])
scoped-with_attrs_example =
    scoped-with_attrs kept [] (b'a' ∷ [])
      (record { level = level_info; message = b'm' ∷ []; fields = [] }) (sink []) []
