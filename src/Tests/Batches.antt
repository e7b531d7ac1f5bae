-- ===== src/Tests/Batches.antt =====
-- Batches and verifications at concrete inputs.
use git_lfs_server.Base.{◌≡◌, refl, none, some, List, [], ◌∷◌, All, map}
use git_lfs_server.Base.Int.{ℤ, pos}
use git_lfs_server.Base.Text.{Str, str}
use git_lfs_server.Error.{ok, err, token_invalid}
use git_lfs_server.Database.Exec
use git_lfs_server.Database.Objects.{link_object}
use git_lfs_server.Storage.{Presigner, presigner}
use git_lfs_server.Server.{
  World, write, read, BatchResponseObject, batch, Storages, repo_name_from_context, Message,
}
use git_lfs_server.Server.Batch.{
  BatchRequest, BatchConfig, BatchObject, operation_of, download, serve_batch,
}
use git_lfs_server.Server.Batch.Offers.{offered}
use git_lfs_server.Storage.Presign.Base64.{base64_encode}
use git_lfs_server.Server.Batch.Answers.{named, asked, serve_batch-answers_all}
use git_lfs_server.Server.Batch.Served.{IsServed, serve_batch-IsServed}
use git_lfs_server.Server.Verify.{VerifyRequest, serve_verify}
use git_lfs_server.Server.Stored.{Keeps, serve_verify-stored}
use git_lfs_server.Tests.{oid, db, db-IsSound, params, zeros}

abbrev config : BatchConfig
config = record { external_url = str "e"; max_object_size = pos 0 }

abbrev request : BatchRequest
request = record {
  operation = str "download";
  transfers = [];
  objects = record { oid = oid; size = pos 3 } ∷ [];
}

-- The object is not there.
abbrev absent : List BatchResponseObject
absent =
    record {
      oid = oid;
      size = pos 3;
      actions = [];
      error = some (404, git_lfs_server.Server.text (str "object does not exist"));
    }
    ∷ []

abbrev bare : World (Unit {0})
bare = record { db = db; store = tt }

answer_eq : (serve_batch config params read [] (some request) bare).0.body ≡ batch absent
unfolding serve_batch git_lfs_server.Server.Batch.batch_refused
    git_lfs_server.Server.Batch.process_batch git_lfs_server.Server.Batch.look_up
    git_lfs_server.Server.Batch.batch_objects git_lfs_server.Server.Batch.batch_object
    git_lfs_server.Server.Batch.download_object operation_of git_lfs_server.Server.attempt
    git_lfs_server.Server.matches_oid git_lfs_server.Server.repo_name_from_context
    git_lfs_server.Database.Objects.get_repo_objects_by_oids git_lfs_server.Database.Objects.by_oid
    git_lfs_server.Database.Statements.select_repo_objects Exec.query Exec.◌>>=◌
    git_lfs_server.Base.filter git_lfs_server.Base.Text.dec_str str git_lfs_server.Base.ℕ_discrete
answer_eq = refl

operation_eq : operation_of request.operation ≡ download
unfolding operation_of str git_lfs_server.Base.Text.dec_str git_lfs_server.Base.ℕ_discrete
operation_eq = refl

serve_batch-answers_all_example : map named absent ≡ map asked request.objects
serve_batch-answers_all_example =
    serve_batch-answers_all config params read [] request bare absent answer_eq

serve_batch-IsServed_example : All (IsServed (repo_name_from_context params) db) absent
serve_batch-IsServed_example =
    serve_batch-IsServed config params read [] request bare absent db-IsSound operation_eq answer_eq

abbrev upload_request : BatchRequest
upload_request = record request { operation = str "upload" }

-- The offer of an object whose digest is 32 zero bytes.
abbrev new_object : List BatchResponseObject
new_object = offered config (str "h/o") [] oid (pos 3) (base64_encode (zeros 32 0)) ∷ []

-- A presigning storage whose objects have three bytes.
abbrev signer : Presigner (Unit {0})
signer = record {
  base = record { name = []; kind = []; scheme = str "s3://"; delete = λ u s. (none, s) };
  uri = λ o. str "s3://b/k";
  presign_put = λ o n s. (err token_invalid, s);
  presign_get = λ u s. (err token_invalid, s);
  head = λ u s. (ok (pos 3), s);
}

abbrev signing : Storages (Unit {0})
signing h = some (presigner signer)

abbrev confirmation : VerifyRequest
confirmation = record { oid = oid; size = pos 3 }

-- The pending row of the object is there.
abbrev pending : World (Unit {0})
pending = record {
  db = (git_lfs_server.Database.Objects.insert_pending_object oid db).1;
  store = tt;
}

confirmed_code : (serve_verify params signing write (some confirmation) pending).0.code ≡ 204
unfolding serve_verify git_lfs_server.Server.Verify.serve_verify_presign
    git_lfs_server.Server.attempt git_lfs_server.Server.matches_oid
    git_lfs_server.Server.repo_name_from_context
    git_lfs_server.Database.Objects.insert_pending_object
    git_lfs_server.Database.Objects.verify_object git_lfs_server.Database.Objects.verify_body
    git_lfs_server.Database.Objects.stored_uri git_lfs_server.Database.Objects.attach
    git_lfs_server.Database.Objects.deref git_lfs_server.Database.Statements.insert_pending
    git_lfs_server.Database.Statements.mark_verified git_lfs_server.Database.Statements.find
    git_lfs_server.Database.Statements.update_where git_lfs_server.Database.Statements.select_by_oid
    git_lfs_server.Database.Statements.is_linked git_lfs_server.Database.Statements.insert_link
    git_lfs_server.Database.Statements.recount Exec.query Exec.command Exec.bracketed
    Exec.transaction Exec.◌>>=◌ git_lfs_server.Base.Text.dec_str git_lfs_server.Base.Int.dec_ℤ str
    git_lfs_server.Base.ℕ_discrete
confirmed_code = refl

serve_verify-stored_example :
    ((signer.head (signer.uri oid) tt).0 ≡ ok (pos 3))
    × Keeps params oid (pos 3) (serve_verify params signing write (some confirmation) pending).1
serve_verify-stored_example =
    serve_verify-stored params signing write confirmation signer pending refl confirmed_code
