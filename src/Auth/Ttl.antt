-- ===== src/Auth/Ttl.antt =====
-- How long authorize lets the cache keep a permission.
use git_lfs_server.Base.{ℕ, ◌+◌, ◌<◌, ◌≤◌, ◌≡◌, refl, ◌↔◌, ◌⊎◌, inl, inr, arith}
use git_lfs_server.Base.Int.{ℤ, pos, negsuc}
use git_lfs_server.Auth.{auth_cache_ttl, auth_cache_ttl_max, auth_cache_ttl_margin}

-- authCacheTTL of a token that expires after some time, when it caches at all, is positive and at
-- most the maximum, and leaves the margin before the token expires.
pub auth_cache_ttl-margin :
    (raw ttl : ℕ)
    → 0 < raw
    → auth_cache_ttl (pos raw) ≡ pos ttl
    → (0 < ttl) × (ttl ≤ auth_cache_ttl_max) × (ttl + auth_cache_ttl_margin ≤ raw)
unfolding auth_cache_ttl
auth_cache_ttl-margin raw ttl h e = ground arith

-- authCacheTTL caches nothing exactly where the provider forbids it, by a negative time, or the
-- token expires within the margin.
pub auth_cache_ttl-skips :
    (raw : ℤ)
    → (auth_cache_ttl raw ≡ negsuc 0) ↔ (
        ((n : ℕ) × (raw ≡ negsuc n))
        ⊎ ((n : ℕ) × (raw ≡ pos n) × (0 < n) × (n ≤ auth_cache_ttl_margin)))
unfolding auth_cache_ttl
auth_cache_ttl-skips (negsuc n) = (λ h. inl (n, refl), λ h. refl)
auth_cache_ttl-skips (pos n) = (
  λ h. inr (n, refl, ground arith, ground arith),
  λ h. elim h [ inl (m, e) ↦ absurd (cc) | inr (m, e, k, l) ↦ ground arith ],
)
