-- ===== src/Chartsync/Decryption.antt =====
-- What the decryption of credentials gives back (pkg/chartsync/oss.go).
use helm_operator.Base.{
  List, String, [], ap, arith, drop, length, length-append, none, refl, some, suc, take, zero, ℕ,
  ◌%◌, ◌*◌, ◌++◌, ◌+◌, ◌-◌, ◌/◌, ◌∙◌, ◌∷◌, ◌≡◌, ◌≢◌, ◌≤◌,
}
use helm_operator.Chartsync.System.{Os}
use helm_operator.Chartsync.Aes.{aes_decrypt, last_or, unpad, decrypt_blocks}
use helm_operator.Chartsync.Providers.{decrypt}
use helm_operator.Effects.{ok}

take_of_length :
    (n : ℕ) (xs ys : List ℕ) → length xs ≡ n → (take n (xs ++ ys) ≡ xs) × (drop n (xs ++ ys) ≡ ys)
take_of_length zero [] ys h = (refl, refl)
take_of_length zero (x ∷ xs) ys h = absurd (omega arith)
take_of_length (suc n) [] ys h = absurd (omega arith)
take_of_length (suc n) (x ∷ xs) ys h =
    let (a, b) = take_of_length n xs ys (omega arith) in (ap (λ l. x ∷ l) a, b)

take-append-drop : (n : ℕ) (xs : List ℕ) → take n xs ++ drop n xs ≡ xs
take-append-drop zero xs = refl
take-append-drop (suc n) [] = refl
take-append-drop (suc n) (x ∷ xs) = rw (take-append-drop n xs)

length-drop : (n : ℕ) (xs : List ℕ) → length (drop n xs) ≡ length xs - n
length-drop zero xs = omega arith
length-drop (suc n) [] = omega arith
length-drop (suc n) (x ∷ xs) = omega (arith, length-drop n xs)

length-take_le : (n : ℕ) (xs : List ℕ) → n ≤ length xs → length (take n xs) ≡ n
length-take_le zero xs h = refl
length-take_le (suc n) [] h = absurd (omega arith)
length-take_le (suc n) (x ∷ xs) h = omega (arith, length-take_le n xs)

abbrev pub replicate : ℕ → ℕ → List ℕ
replicate zero v = []
replicate (suc n) v = v ∷ replicate n v

length-replicate : (n v : ℕ) → length (replicate n v) ≡ n
length-replicate zero v = refl
length-replicate (suc n) v = omega (arith, length-replicate n v)

-- How the credentials are encrypted: padded to whole blocks by 1 to 16 bytes that count
-- themselves, and each block put through the cipher.
abbrev pub padding : ℕ → ℕ
padding n = 16 - n % 16

unfoldable pub pad : List ℕ → List ℕ
pad bytes = bytes ++ replicate (padding (length bytes)) (padding (length bytes))

unfoldable pub encrypt_blocks : (List ℕ → List ℕ) → ℕ → List ℕ → List ℕ
encrypt_blocks encrypt zero bytes = []
encrypt_blocks encrypt (suc m) bytes =
    encrypt (take 16 bytes) ++ encrypt_blocks encrypt m (drop 16 bytes)

-- A block cipher and its inverse.
abbrev pub Inverts : (List ℕ → List ℕ) → (List ℕ → List ℕ) → Type 0
Inverts decrypt encrypt =
    (b : List ℕ) → length b ≡ 16 → (decrypt (encrypt b) ≡ b) × (length (encrypt b) ≡ 16)

last_or-append : (d v : ℕ) (n : ℕ) (xs : List ℕ) → last_or d (xs ++ replicate (suc n) v) ≡ v
last_or-append d v zero [] = refl
last_or-append d v (suc n) [] = last_or-append v v n []
last_or-append d v n (x ∷ xs) = last_or-append x v n xs

last_or-replicate : (n v : ℕ) → last_or v (replicate n v) ≡ v
last_or-replicate zero v = refl
last_or-replicate (suc n) v = last_or-replicate n v

unpad_step :
    (x : ℕ) (xs : List ℕ) (k : ℕ) (out : List ℕ)
    → last_or x xs ≡ k
    → length (x ∷ xs) ≡ length out + k
    → take (length out) (x ∷ xs) ≡ out
    → unpad (x ∷ xs) ≡ some out
unfolding unpad
unpad_step x xs k out last size front =
    let kept : suc (length xs) - k ≡ length out = omega arith in
    rw (last, kept, front) (ground arith)

unpad-append : (k : ℕ) (xs : List ℕ) → unpad (xs ++ replicate (suc k) (suc k)) ≡ some xs
unfolding unpad
unpad-append k [] = unpad_step (suc k) (replicate k (suc k)) (suc k) [] last' size' refl
  where
    last' : last_or (suc k) (replicate k (suc k)) ≡ suc k
    last' = last_or-replicate k (suc k)

    size' : length (suc k ∷ replicate k (suc k)) ≡ 0 + suc k
    size' = omega (arith, length-replicate k (suc k))
unpad-append k (x ∷ xs) =
    unpad_step x (xs ++ replicate (suc k) (suc k)) (suc k) (x ∷ xs) (last_or-append x (suc k) k xs)
      (omega
        (arith, length-append xs (replicate (suc k) (suc k)), length-replicate (suc k) (suc k)))
      (take_of_length (length (x ∷ xs)) (x ∷ xs) (replicate (suc k) (suc k)) refl).0

decrypt_nil : (block : List ℕ → List ℕ) (fuel : ℕ) → decrypt_blocks block fuel [] ≡ some []
unfolding decrypt_blocks
decrypt_nil block zero = refl
decrypt_nil block (suc fuel) = refl

decrypt_step :
    (block : List ℕ → List ℕ) (fuel : ℕ) (head rest out : List ℕ)
    → length head ≡ 16
    → decrypt_blocks block fuel rest ≡ some out
    → decrypt_blocks block (suc fuel) (head ++ rest) ≡ some (block head ++ out)
unfolding decrypt_blocks
decrypt_step block fuel head rest out n h =
    let (front, back) = take_of_length 16 head rest n in
    simp (back, h, front) (ground (arith, length-append head rest))

module _ (decrypt encrypt : List ℕ → List ℕ) (inv : Inverts decrypt encrypt) where
  decrypt_blocks-encrypt_blocks :
      (m fuel : ℕ) (bytes : List ℕ)
      → length bytes ≡ 16 * m
      → m ≤ fuel
      → (decrypt_blocks decrypt fuel (encrypt_blocks encrypt m bytes) ≡ some bytes)
        × (length (encrypt_blocks encrypt m bytes) ≡ 16 * m)
  unfolding encrypt_blocks
  decrypt_blocks-encrypt_blocks zero zero [] l h = (decrypt_nil decrypt 0, omega arith)
  decrypt_blocks-encrypt_blocks zero (suc fuel) [] l h =
      (decrypt_nil decrypt (suc fuel), omega arith)
  decrypt_blocks-encrypt_blocks zero fuel (x ∷ xs) l h = absurd (omega arith)
  decrypt_blocks-encrypt_blocks (suc m) zero bytes l h = absurd (omega arith)
  decrypt_blocks-encrypt_blocks (suc m) (suc fuel) bytes l h =
      let (d, n) = inv (take 16 bytes) (length-take_le 16 bytes (omega arith)) in
      let (ih, len) =
        decrypt_blocks-encrypt_blocks m fuel (drop 16 bytes) (omega (arith, length-drop 16 bytes))
          (omega arith) in
      let (front, back) =
        take_of_length 16 (encrypt (take 16 bytes)) (encrypt_blocks encrypt m (drop 16 bytes)) n in
      let total =
        length-append (encrypt (take 16 bytes)) (encrypt_blocks encrypt m (drop 16 bytes)) in
      let step =
        decrypt_step decrypt fuel (encrypt (take 16 bytes))
          (encrypt_blocks encrypt m (drop 16 bytes)) (drop 16 bytes) n ih in
      let joined : decrypt (encrypt (take 16 bytes)) ++ drop 16 bytes ≡ bytes =
        rw d (take-append-drop 16 bytes) in
      (step ∙ ap some joined, omega arith)

  -- Decrypting gives the credentials back that were padded and encrypted block by block, for any
  -- block cipher whose inverse is used.
  pub aes_decrypt-encrypt :
      (bytes : List ℕ)
      → aes_decrypt decrypt (encrypt_blocks encrypt (length bytes / 16 + 1) (pad bytes))
        ≡ some bytes
  unfolding aes_decrypt pad
  aes_decrypt-encrypt bytes =
      let m : ℕ = length bytes / 16 + 1 in
      let j : ℕ = 15 - length bytes % 16 in
      let k : padding (length bytes) ≡ suc j = omega arith in
      let padded = bytes ++ replicate (suc j) (suc j) in
      let size : length padded ≡ 16 * m = omega (
        arith,
        length-append bytes (replicate (suc j) (suc j)),
        length-replicate (suc j) (suc j),
      ) in
      let fuel = length (encrypt_blocks encrypt m padded) in
      let len = (decrypt_blocks-encrypt_blocks m (16 * m) padded size (omega arith)).1 in
      let back = (decrypt_blocks-encrypt_blocks m fuel padded size (omega arith)).0 in
      rw k (rw (back, aes_decrypt) (unpad-append j bytes))

-- Credentials whose length is not a whole number of blocks make the decryption panic, and the
-- recovered call returns an empty text with no error.
blocks_unaligned :
    (block : List ℕ → List ℕ) (fuel : ℕ) (bytes : List ℕ)
    → length bytes ≤ fuel
    → length bytes % 16 ≢ 0
    → decrypt_blocks block fuel bytes ≡ none
unfolding decrypt_blocks
blocks_unaligned block zero bytes h n = absurd (omega arith)
blocks_unaligned block (suc fuel) bytes h n =
    ground (arith, blocks_unaligned block fuel (drop 16 bytes), length-drop 16 bytes)

-- Credentials that are not whole blocks are decrypted to an empty text, without an error.
decrypt_unaligned :
    {W : Type 0} (os : Os W) (encrypted : String) (bytes : List ℕ)
    → os.decode encrypted ≡ ok bytes
    → length bytes % 16 ≢ 0
    → decrypt os encrypted ≡ ok ""
unfolding decrypt aes_decrypt
decrypt_unaligned os encrypted bytes e n =
    rw (e, decrypt)
      (rw (blocks_unaligned os.decrypt_block (length bytes) bytes (omega arith) n, aes_decrypt))
