-- ===== src/Errors.antt =====
-- Errors as values: pkg/release/errors.go, pkg/chartsync/errors.go, and the errors of the
-- libraries that the code tells apart (not found, conflict, release not found).
use helm_operator.Base.{Bool, true, false, String, ◌++s◌}

mutual
  pub data Error : Type 0 where
    plain : String → Error
    -- `fmt.Errorf("...: %w", err)`
    wrapped : String → Error → Error
    api_not_found : String → Error
    api_conflict : String → Error
    -- `driver.ErrReleaseNotFound` of Helm
    release_not_found : Error
    chart_unavailable : Error → Error
    chart_not_ready : Error → Error
    git_auth : Error → Error
    collected : ErrCollection → Error

  -- `errs = append(errs, err)` adds at the end.
  pub data ErrCollection : Type 0 where
    empty : ErrCollection
    append : ErrCollection → Error → ErrCollection

unfoldable pub is_empty : ErrCollection → Bool
is_empty empty = true
is_empty (append _ _) = false

-- `k8serrors.IsNotFound`, and the conflict that a retry waits for.
abbrev pub is_not_found : Error → Bool
is_not_found (api_not_found _) = true
is_not_found _ = false

abbrev pub is_conflict : Error → Bool
is_conflict (api_conflict _) = true
is_conflict _ = false

-- `errCollection.Error` joins the messages, the last first.
mutual
  pub error : Error → String
  error (plain s) = s
  error (wrapped s e) = s ++s (": " ++s error e)
  error (api_not_found s) = s ++s " not found"
  error (api_conflict s) = s
  error release_not_found = "release: not found"
  error (chart_unavailable e) = "chart unavailable: " ++s error e
  error (chart_not_ready e) = "chart not ready: " ++s error e
  error (git_auth e) = "git auth error: " ++s error e
  error (collected es) = error_collection es

  pub error_collection : ErrCollection → String
  error_collection empty = ""
  error_collection (append es e) = error e ++s join_rest es

  join_rest : ErrCollection → String
  join_rest empty = ""
  join_rest (append es e) = ", previous error:" ++s (error e ++s join_rest es)
