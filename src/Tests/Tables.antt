-- ===== src/Tests/Tables.antt =====
-- The tables at concrete rows.
use git_lfs_server.Base.{
  ℕ, ◌≡◌, ◌≢◌, ◌<◌, ◌&&◌, refl, ap, sym, subst, ◌∙◌, none, some, List, [], ◌∷◌, true, false, arith,
  is_some, All, Bool, map, ◌⊎◌,
}
use git_lfs_server.Base.Int.{ℤ, pos, dec_ℤ}
use git_lfs_server.Base.Text.{Str, str, dec_str, is_empty, to_lower, lower}
use git_lfs_server.Error.{ok}
use git_lfs_server.Database.Schema.{Db}
use git_lfs_server.Database.Exec
use git_lfs_server.Database.Exec.{query, command, bracketed, transaction, sent}
use git_lfs_server.Database.Statements.{
  find, has_oid, update_where, is_linked, upsert, insert_link, recount,
}
use git_lfs_server.Database.Objects.{deref, attach, stored_uri, link_body, link_object}
use git_lfs_server.Database.Invariant.{IsSound}
use git_lfs_server.Database.Link.{IsStored}
use git_lfs_server.Database.Link.Progress.{Agrees, link_object-total}
use git_lfs_server.Database.Link.Outcome.{link_object-IsStored}
use git_lfs_server.Database.Link.Sound.{link_object-IsSound}
use git_lfs_server.Storage.{Proxier, proxier}
use git_lfs_server.Server.{World, read, Response, Storages, matches_oid, repo_name_from_context}
use git_lfs_server.Server.Verify.{VerifyRequest}
use git_lfs_server.Server.Download.{streamed, serve_download}
use git_lfs_server.Server.Downloads.{serve_download-stored}
use git_lfs_server.Server.Serving.{serve_download-serves}
use git_lfs_server.Tests.{oid, repo, db, db-IsSound, params}

abbrev pub place : Str
place = str "fs:///r/0"

abbrev pub linked : Db
linked = (link_object repo oid (pos 3) place db).1

linked_eq : link_object repo oid (pos 3) place db ≡ (ok place, linked)
unfolding query command bracketed transaction find update_where is_linked upsert insert_link recount
    deref attach stored_uri link_body link_object Exec.◌>>=◌ dec_str str dec_ℤ
    git_lfs_server.Base.ℕ_discrete
linked_eq = refl

pub linked-IsSound : IsSound linked
linked-IsSound = link_object-IsSound repo oid (pos 3) place db db-IsSound

pub stored : IsStored repo oid (pos 3) place linked
stored = link_object-IsStored repo oid (pos 3) place place db linked linked_eq

up : Exec.first_fault linked.faults ≡ false
unfolding query command bracketed transaction find update_where is_linked upsert insert_link recount
    deref attach stored_uri link_body link_object Exec.◌>>=◌ dec_str str dec_ℤ
    git_lfs_server.Base.ℕ_discrete
up = refl

-- A storage that gives the same bytes at every URI.
abbrev pub constant : Proxier (Unit {0})
constant = record {
  base = record { name = []; kind = []; scheme = str "fs://"; delete = λ u s. (none, s) };
  put = λ o s t. (ok place, t);
  open_uri = λ u s. (ok (7 ∷ 8 ∷ 9 ∷ [], none), s);
}

abbrev pub both : Storages (Unit {0})
both h = some (proxier constant)

abbrev pub held : World (Unit {0})
held = record { db = linked; store = tt }

pub repo_eq : repo_name_from_context params ≡ repo
unfolding repo_name_from_context to_lower lower str
repo_eq = refl

pub valid : matches_oid oid ≡ true
unfolding matches_oid
valid = refl

full : is_empty place ≡ false
unfolding is_empty str
full = refl

streamed_code : (r : Response) → r ≡ streamed (pos 3) (7 ∷ 8 ∷ 9 ∷ [], none) → r.code < 400
streamed_code r h = rw h (omega arith)

succeeds : (serve_download params both read held).0.code < 400
succeeds = streamed_code (serve_download params both read held).0 (
    serve_download-serves params both constant held read 3 place (7 ∷ 8 ∷ 9 ∷ [], none) refl refl
      valid linked-IsSound up
      (subst (λ r. IsStored r oid (pos 3) place linked) (sym repo_eq) stored) full refl)

serve_download-stored_example :
    (size : ℤ) × (uri : Str) × IsStored (repo_name_from_context params) oid size uri linked
serve_download-stored_example = serve_download-stored params both read held linked-IsSound succeeds

named : place ≢ []
unfolding str
named h = cc

agreed : Agrees (pos 3) (find (has_oid oid) db.objects)
unfolding find
agreed = tt

link_object-total_example :
    (uri : Str) × (db' : Db) × (link_object repo oid (pos 3) place db ≡ (ok uri, db'))
link_object-total_example = link_object-total repo oid (pos 3) place db refl refl named agreed

abbrev wrong : VerifyRequest
wrong = record { oid = oid; size = pos 4 }
