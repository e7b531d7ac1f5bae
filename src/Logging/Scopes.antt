-- ===== src/Logging/Scopes.antt =====
-- internal/logx: what nested scopes make of a message.
use mathlib.Core.List.{append_assoc}
use git_lfs_server.Base.{◌≡◌, refl, sym, ap, ◌∙◌, [], ◌∷◌, ◌++◌}
use git_lfs_server.Base.Text.{Str, str}
use git_lfs_server.Logging.{
  LogRecord, Sink, Handler, sink, prefix_handler, handle, with_attrs, scoped,
}

module _ {H : Type 0} where
  -- The handler at the bottom, and the texts before a message, outermost first.
  abbrev bottom : Handler H → H
  bottom (sink h) = h
  bottom (prefix_handler prefix h) = bottom h

  abbrev prefixes : Handler H → Str
  prefixes (sink h) = []
  prefixes (prefix_handler prefix h) = prefixes h ++ prefix

-- A handler under any scopes writes the record by the handler at the bottom, with the texts of the
-- scopes before its message, outermost first.
pub handle-prefixes :
    {F H W : Type 0} (s : Sink F H W) (r : LogRecord F) (h : Handler H) (w : W)
    → handle s r h w ≡ s.handle (record r { message = prefixes h ++ r.message }) (bottom h) w
unfolding handle
handle-prefixes s r (sink h) w = refl
handle-prefixes s r (prefix_handler prefix h) w =
    handle-prefixes s (record r { message = prefix ++ r.message }) h w
    ∙ ap (λ m. s.handle (record r { message = m }) (bottom h) w)
        (sym (append_assoc (prefixes h) prefix r.message))

with_attrs-bottom :
    {F H W : Type 0} (s : Sink F H W) (attrs : F) (h : Handler H)
    → (bottom (with_attrs s attrs h) ≡ s.with_attrs attrs (bottom h))
      × (prefixes (with_attrs s attrs h) ≡ prefixes h)
unfolding with_attrs
with_attrs-bottom s attrs (sink h) = (refl, refl)
with_attrs-bottom s attrs (prefix_handler prefix h) =
    let (b, p) = with_attrs-bottom s attrs h in (b, ap (λ x. x ++ prefix) p)

-- After Scoped and then WithAttrs, on a logger with any scopes, a record is written by the handler
-- at the bottom, which was given the attributes, with the texts of the scopes before the message:
-- those of the logger outermost first, and then the name in brackets.
pub scoped-with_attrs :
    {F H W : Type 0} (s : Sink F H W) (attrs : F) (name : Str) (r : LogRecord F) (h : Handler H)
    (w : W)
    → handle s r (with_attrs s attrs (scoped name h)) w
      ≡ s.handle
          (record r { message = prefixes h ++ (b'[' ∷ (name ++ str "] ")) ++ r.message })
          (s.with_attrs attrs (bottom h))
          w
unfolding scoped with_attrs
scoped-with_attrs s attrs name r h w =
    let (b, p) = with_attrs-bottom s attrs h in
    handle-prefixes s r (with_attrs s attrs (scoped name h)) w
    ∙ ap
        (λ x.
          s.handle (record r { message = (x ++ (b'[' ∷ (name ++ str "] "))) ++ r.message })
            (bottom (with_attrs s attrs h)) w)
        p
    ∙ ap
        (λ x.
          s.handle (record r { message = prefixes h ++ (b'[' ∷ (name ++ str "] ")) ++ r.message }) x
            w)
        b
