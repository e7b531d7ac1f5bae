-- ===== src/Logging.antt =====
-- internal/logx, cmd/lfsd/logging.go and internal/strx: the handlers of log/slog that the server
-- stacks, the level of its log, and the first text that is not empty.
pub mod Scopes
use git_lfs_server.Base.{Bool, Option, List, [], ◌∷◌, ◌++◌, is, if◌then◌else◌}
use git_lfs_server.Base.Text.{Str, str, dec_str, to_lower, is_empty}
use git_lfs_server.Error.{Error}

-- slog.Level
pub data Level : Type 0 where
  level_debug level_info level_warn level_error : Level

-- parseLevel
unfoldable pub parse_level : Str → Level
parse_level s =
    if is (dec_str (to_lower s) (str "debug"))
    then level_debug
    else if is (dec_str (to_lower s) (str "warn"))
    then level_warn
    else if is (dec_str (to_lower s) (str "warning"))
    then level_warn
    else if is (dec_str (to_lower s) (str "error"))
    then level_error
    else level_info

-- strx.Coalesce
unfoldable pub coalesce : List Str → Str
coalesce [] = []
coalesce (s ∷ ss) = if is_empty s then coalesce ss else s

-- A record of log/slog: its level, its message, and its other fields.
pub record LogRecord (F : Type 0) : Type 0 where
  pub level : Level
  pub message : Str
  pub fields : F

-- A handler of another package, on the state `W` of what it writes to; Handle returns its error.
pub record Sink (F H W : Type 0) : Type 0 where
  pub enabled : Level → H → Bool
  pub handle : LogRecord F → H → W → Option Error × W
  pub with_attrs : F → H → H
  pub with_group : Str → H → H

-- slog.Handler: another package's, or a prefixHandler
pub data Handler (H : Type 0) : Type 0 where
  sink : H → Handler H
  prefix_handler : Str → Handler H → Handler H

module _ {F H W : Type 0} (s : Sink F H W) where
  -- Enabled
  unfoldable pub enabled : Level → Handler H → Bool
  enabled level (sink h) = s.enabled level h
  enabled level (prefix_handler prefix h) = enabled level h

  -- Handle: the prefix goes before the message
  unfoldable pub handle : LogRecord F → Handler H → W → Option Error × W
  handle r (sink h) w = s.handle r h w
  handle r (prefix_handler prefix h) w = handle (record r { message = prefix ++ r.message }) h w

  -- WithAttrs
  unfoldable pub with_attrs : F → Handler H → Handler H
  with_attrs attrs (sink h) = sink (s.with_attrs attrs h)
  with_attrs attrs (prefix_handler prefix h) = prefix_handler prefix (with_attrs attrs h)

  -- WithGroup
  unfoldable pub with_group : Str → Handler H → Handler H
  with_group name (sink h) = sink (s.with_group name h)
  with_group name (prefix_handler prefix h) = prefix_handler prefix (with_group name h)

-- Scoped: the handler of the child logger
unfoldable pub scoped : {H : Type 0} → Str → Handler H → Handler H
scoped name h = prefix_handler (b'[' ∷ (name ++ str "] ")) h
