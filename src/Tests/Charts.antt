-- ===== src/Tests/Charts.antt =====
-- Charts and credentials in the small cluster.
use helm_operator.Base.{
  [], arith, false, none, refl, true, ◌∷◌, ◌≡◌, List, ℕ, length, ◌/◌, ◌+◌, some,
}
use helm_operator.Effects.{ok}
use helm_operator.Chartsync.{ensure_chart_fetched, clean_repo_url, aes_decrypt}
use helm_operator.Chartsync.Caching.{fetched_then_cached, chart_file}
use helm_operator.Chartsync.Decryption.{Inverts, encrypt_blocks, pad, aes_decrypt-encrypt}
use helm_operator.Tests.Cluster.{os, client_of, repo_source}

fetched_then_cached_example :
    (ensure_chart_fetched os (client_of (ok none) (ok none)) "/tmp" repo_source 0
      ≡ (ok (chart_file os (client_of (ok none) (ok none)) "/tmp" repo_source, true), 3))
    × (ensure_chart_fetched os (client_of (ok none) (ok none)) "/tmp" repo_source 3
        ≡ (ok (chart_file os (client_of (ok none) (ok none)) "/tmp" repo_source, false), 5))
unfolding clean_repo_url
fetched_then_cached_example =
    fetched_then_cached os (client_of (ok none) (ok none)) "/tmp" repo_source 0 1 2 3 4 5 refl refl
      refl refl refl

-- A cipher that swaps the first two bytes of a block.
abbrev swap : List ℕ → List ℕ
swap (a ∷ b ∷ r) = b ∷ a ∷ r
swap r = r

swap-Inverts : Inverts swap swap
swap-Inverts (a ∷ b ∷ r) h = (refl, h)
swap-Inverts [] h = absurd (omega arith)
swap-Inverts (a ∷ []) h = absurd (omega arith)

abbrev secret : List ℕ
secret = 115 ∷ 101 ∷ 99 ∷ 114 ∷ 101 ∷ 116 ∷ []

aes_decrypt-encrypt_example :
    aes_decrypt swap (encrypt_blocks swap (length secret / 16 + 1) (pad secret)) ≡ some secret
aes_decrypt-encrypt_example = aes_decrypt-encrypt swap swap swap-Inverts secret
