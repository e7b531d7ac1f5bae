-- ===== src/Config/Pairing.antt =====
-- What loadConfig gives: for every host a forge and a storage.
use git_lfs_server.Base.{
  ℕ, ◌≡◌, refl, ap, subst, Bool, Option, none, some, List, [], ◌∷◌, map, All, is_some, arith,
  Bool-cases, inl, inr, ◌≢◌,
}
use git_lfs_server.Base.Int.{ℤ}
use git_lfs_server.Base.Text.{
  Str, str, dec_str, cut_prefix, cut_suffix, to_lower, to_lower_idem, is_empty,
}
use git_lfs_server.Error.{ok}
use git_lfs_server.Storage.Presign.{S3Client}
use git_lfs_server.Forge.{Provider, new_repo_allowlist}
use git_lfs_server.Forge.Allowlist.{and_then-ok, ok-injective}
use git_lfs_server.Forge.GitHub.{GithubReply}
use git_lfs_server.Config.{
  ForgeConfig, Section, Configured, entry, section_name, Backends, Hosts, init_forge, with_backend,
  with_forge, forge_section, load_storages, load_forges, if_any, some_forge, no_hosts, load_hosts,
}

abbrev pub keys {ℓ} : {A : Type ℓ} → List (Str × A) → List Str
keys l = map (λ p. p.0) l

entry-keys {ℓ κ} :
    {A : Type ℓ} {B : Type κ} (k : Str) (xs : List (Str × A)) (ys : List (Str × B))
    → keys xs ≡ keys ys
    → is_some (entry k xs) ≡ is_some (entry k ys)
entry-keys k [] [] h = refl
entry-keys k [] (y ∷ ys) h = absurd (cc)
entry-keys k (x ∷ xs) [] h = absurd (cc)
entry-keys k ((a, x) ∷ xs) ((b, y) ∷ ys) h =
    let same : a ≡ b = cc (h) in
    let rest : keys xs ≡ keys ys = cc (h) in
    elim (dec_str a k) [ yes e ↦ ground arith | no ne ↦ ground (arith, entry-keys k xs ys rest) ]

module _ {S N : Type 0} (cwd : Str) (endpoint_ok : Str → Bool) (client : S3Client S)
    (until : Str → Str → Option ℤ) (github : Str → Str → N → Option GithubReply × N)
    (gitlab : Str → Str → Str → N → Option ℕ × N) where
  abbrev Loaded : Type 0
  Loaded = Hosts cwd endpoint_ok client until github gitlab

  -- The two maps have the same hosts, in lower case.
  abbrev IsPaired : Loaded → Type 0
  IsPaired h = (keys h.forges ≡ keys h.storages) × All (λ k. to_lower k ≡ k) (keys h.forges)

  with_backend-IsPaired :
      (host : Str) (fc : ForgeConfig) (h h' : Loaded) (b : Option (Configured S))
      → to_lower host ≡ host
      → IsPaired h
      → with_backend cwd endpoint_ok client until github gitlab host fc h b ≡ ok h'
      → IsPaired h'
  with_backend-IsPaired host fc h h' none low p e = absurd (cc)
  with_backend-IsPaired host fc h h' (some b) low p e =
      let (allowlist, _, rest) = and_then-ok (new_repo_allowlist fc.repo_allowlist) _ h' e in
      let (q, _, last) =
        and_then-ok (init_forge cwd endpoint_ok client until github gitlab host fc allowlist) _ h'
          rest in
      subst IsPaired (ok-injective last) (ap (λ l. host ∷ l) p.0, (low, p.1))

  with_forge-IsPaired :
      (bs : Backends cwd endpoint_ok client until github gitlab) (host : Str) (h h' : Loaded)
      (fc : Option ForgeConfig)
      → to_lower host ≡ host
      → IsPaired h
      → with_forge cwd endpoint_ok client until github gitlab bs host h fc ≡ ok h'
      → IsPaired h'
  with_forge-IsPaired bs host h h' none low p e = absurd (cc)
  with_forge-IsPaired bs host h h' (some fc) low p e = elim (Bool-cases (is_empty fc.storage)) [
    | inl d ↦ absurd (cc (rw d at e))
    | inr d ↦ with_backend-IsPaired host fc h h' (entry fc.storage bs) low p (rw d at e)
  ]

  if_any-ok :
      (l : List (Str × Provider N)) (h h' : Loaded)
      → if_any cwd endpoint_ok client until github gitlab l h ≡ ok h'
      → (h ≡ h') × (l ≢ [])
  if_any-ok [] h h' e = absurd (cc)
  if_any-ok (f ∷ fs) h h' e = (ok-injective e, λ z. cc)

  some_forge-ok :
      (h h' : Loaded)
      → some_forge cwd endpoint_ok client until github gitlab h ≡ ok h'
      → (h ≡ h') × (h'.forges ≢ [])
  some_forge-ok h h' e =
      let (same, full) = if_any-ok h.forges h h' e in (same, subst (λ x. x.forges ≢ []) same full)

  forge_section-IsPaired :
      (s : Section) (bs : Backends cwd endpoint_ok client until github gitlab) (h h' : Loaded)
      (rest : Option Str)
      → IsPaired h
      → forge_section cwd endpoint_ok client until github gitlab s bs h rest ≡ ok h'
      → IsPaired h'
  forge_section-IsPaired s bs h h' none p e = subst IsPaired (ok-injective e) p
  forge_section-IsPaired s bs h h' (some rest) p e =
      let (name, _, more) = and_then-ok (section_name (cut_suffix rest (str "\""))) _ h' e in
      elim (Bool-cases (is_some (entry (to_lower name) h.forges))) [
        | inl d ↦ absurd (cc (rw d at more))
        | inr d ↦
            with_forge-IsPaired bs (to_lower name) h h' s.mapped (to_lower_idem name) p
              (rw d at more)
      ]

  load_forges-IsPaired :
      (ss : List Section) (bs : Backends cwd endpoint_ok client until github gitlab) (h h' : Loaded)
      → IsPaired h
      → load_forges cwd endpoint_ok client until github gitlab ss bs h ≡ ok h'
      → IsPaired h'
  unfolding load_forges
  load_forges-IsPaired [] bs h h' p e = subst IsPaired (ok-injective e) p
  load_forges-IsPaired (s ∷ ss) bs h h' p e =
      let (mid, first, rest) =
        and_then-ok
          (forge_section cwd endpoint_ok client until github gitlab s bs h
            (cut_prefix s.name (str "forge \"")))
          _ h' e in
      load_forges-IsPaired ss bs mid h' (forge_section-IsPaired s bs h mid _ p first) rest

  -- What loadConfig makes of the sections has a storage for exactly the hosts that have a forge,
  -- all of them in lower case, and at least one.
  pub load_hosts-hosts :
      (sections : List Section) (h : Loaded)
      → load_hosts cwd endpoint_ok client until github gitlab sections ≡ ok h
      → ((host : Str) → is_some (entry host h.forges) ≡ is_some (entry host h.storages))
        × All (λ k. to_lower k ≡ k) (keys h.forges)
        × (h.forges ≢ [])
  unfolding load_hosts
  load_hosts-hosts sections h e =
      let (bs, _, rest) =
        and_then-ok (load_storages cwd endpoint_ok client until github gitlab sections []) _ h e in
      let (h', loaded, last) =
        and_then-ok
          (load_forges cwd endpoint_ok client until github gitlab sections bs
            (no_hosts cwd endpoint_ok client until github gitlab))
          _ h rest in
      let (same, full) = some_forge-ok h' h last in
      let p =
        load_forges-IsPaired sections bs (no_hosts cwd endpoint_ok client until github gitlab) h'
          (refl, tt) loaded in
      let q : IsPaired h = subst IsPaired same p in
      (λ host. entry-keys host h.forges h.storages q.0, q.1, full)
