-- ===== src/Chartsync/Aes.antt =====
-- AES in ECB mode with a trailing count of padding bytes (`AESDecrypt`, pkg/chartsync/oss.go).
-- `block` is the cipher on one block. A slice out of bounds panics.
use helm_operator.Base.{
  List, Option, [], drop, if◌then◌else◌, length, ltb, none, some, suc, take, zero, ℕ, ◌++◌, ◌-◌,
  ◌==◌, ◌∷◌,
}

-- The last element of a non-empty list.
abbrev pub last_or : ℕ → List ℕ → ℕ
last_or d [] = d
last_or d (x ∷ xs) = last_or x xs

-- The loop over blocks of 16 bytes; each round takes at least a byte, so the length is fuel.
unfoldable pub decrypt_blocks : (List ℕ → List ℕ) → ℕ → List ℕ → Option (List ℕ)
decrypt_blocks block zero encrypted = some []
decrypt_blocks block (suc fuel) encrypted =
    let rest = decrypt_blocks block fuel (drop 16 encrypted) in
    if length encrypted == 0
    then some []
    else if ltb (length encrypted) 16
    then none
    else elim rest [ none ↦ none | some bytes ↦ some (block (take 16 encrypted) ++ bytes) ]

-- `decrypted[:trim]`, where `trim` may come out negative.
unfoldable pub unpad : List ℕ → Option (List ℕ)
unpad [] = some []
unpad (x ∷ xs) =
    let n = length (x ∷ xs) in
    let k = last_or x xs in if ltb n k then none else some (take (n - k) (x ∷ xs))

-- `none` is a panic.
unfoldable pub aes_decrypt : (List ℕ → List ℕ) → List ℕ → Option (List ℕ)
unfolding decrypt_blocks unpad
aes_decrypt block encrypted = elim (decrypt_blocks block (length encrypted) encrypted) [
  | none ↦ none
  | some bytes ↦ unpad bytes
]
