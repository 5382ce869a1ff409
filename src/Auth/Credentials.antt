-- ===== src/Auth/Credentials.antt =====
-- `Authenticate`: what a client's `user:password` in Base64 comes to.
use nermalproxy.Prelude.{
  le→ltb-false, ℕ, suc, ◌≤◌, ◌<◌, ◌≡◌, ◌≢◌, ◌↔◌, ◌⊎◌, refl, sym, subst, ◌∙◌, inl, inr, Bool, true,
  [], ◌∷◌, ◌++◌, some, arith, ltb, lt→ltb, if◌then◌else◌, Bool-cases, Option-cases, length,
  replicate, All, All-append, Any, done, fault, buffer_overflow, ◌>>=◌, >>=-eq-done,
}
use nermalproxy.Base64.{base64_decode}
use nermalproxy.Base64.Encoding.{encode, IsBytes}
use nermalproxy.Base64.RoundTrip.{decode-encode}
use nermalproxy.CText.{
  Bytes, c_str, IsCString, IsWord, c_str-append, strchr-append, scan_token-append, scan_token-last,
  scan_token-space,
}
use nermalproxy.Auth.{
  AuthManager, password_login, word_capacity, read_word, split_colon, authenticate,
}
use nermalproxy.Auth.Login.{Matches, password_login_iff}

-- A name or a password that the protocol can carry: bytes other than zero, without white space,
-- and at least one.
pub record IsToken (s : Bytes) : Type 0 where
  pub bytes : IsBytes s
  pub nonzero : IsCString s
  pub word : IsWord s
  pub nonempty : s ≢ []

read_word_front :
    (capacity : ℕ) (s rest : Bytes)
    → IsToken s
    → read_word capacity (s ++ 32 ∷ rest)
      ≡ (if ltb (length s) capacity then done (s, 32 ∷ rest) else fault buffer_overflow)
unfolding read_word
read_word_front capacity [] rest t = absurd (t.nonempty refl)
read_word_front capacity (c ∷ s) rest t = rw (scan_token-append c 32 s rest t.word refl, read_word)

read_word_last :
    (capacity : ℕ) (s : Bytes)
    → IsToken s
    → read_word capacity (32 ∷ s)
      ≡ (if ltb (length s) capacity then done (s, []) else fault buffer_overflow)
unfolding read_word
read_word_last capacity [] t = absurd (t.nonempty refl)
read_word_last capacity (c ∷ s) t =
    rw (scan_token-space 32 (c ∷ s) refl, scan_token-last c s t.word, read_word)

split_colon_front :
    (user pass : Bytes)
    → All (λ c. c ≢ b':') user
    → split_colon (user ++ b':' ∷ pass) ≡ user ++ 32 ∷ pass
unfolding split_colon
split_colon_front user pass h = rw (strchr-append user pass b':' h, split_colon)

joined-IsBytes : (user pass : Bytes) → IsToken user → IsToken pass → IsBytes (user ++ b':' ∷ pass)
joined-IsBytes user pass u p =
    All-append (λ c. c < 256) user (b':' ∷ pass) u.bytes (omega arith, p.bytes)

joined-IsCString :
    (user pass : Bytes) → IsToken user → IsToken pass → IsCString (user ++ b':' ∷ pass)
joined-IsCString user pass u p =
    All-append (λ c. c ≢ 0) user (b':' ∷ pass) u.nonzero (omega arith, p.nonzero)

-- `user:password` in Base64, sent by the client.
abbrev pub credentials : Bytes → Bytes → Bytes
credentials user pass = encode (user ++ b':' ∷ pass)

module _ (m : AuthManager) (user pass unset : Bytes) (u : IsToken user) (p : IsToken pass)
    (plain : All (λ c. c ≢ b':') user) where
  authenticate_reads : authenticate m (credentials user pass) unset ≡ (do
    (name, rest) ← read_word word_capacity (user ++ 32 ∷ pass)
    (password, _) ← read_word word_capacity rest
    done (true, if password_login m.users name password then name else unset))
  unfolding authenticate
  authenticate_reads =
      let (size, zeros, e, _, _) =
        decode-encode (user ++ b':' ∷ pass) (joined-IsBytes user pass u p) in
      rw (
        e,
        authenticate,
        c_str-append (user ++ b':' ∷ pass) (replicate (suc (suc zeros)) 0)
            (joined-IsCString user pass u p),
        split_colon_front user pass plain,
      )

  authenticate_login :
      length user < word_capacity
      → length pass < word_capacity
      → authenticate m (credentials user pass) unset
        ≡ done (true, if password_login m.users user pass then user else unset)
  authenticate_login h k = rw (
    authenticate_reads,
    read_word_front word_capacity user pass u,
    lt→ltb (length user) word_capacity h,
    read_word_last word_capacity pass p,
    lt→ltb (length pass) word_capacity k,
  )

  -- For a name without a colon and a password, both non-empty, without white space or zeros, and
  -- each under 128 bytes, the call succeeds. If some user has that name and that password, the
  -- user name is set to it; if none has, it stays as it was.
  pub authenticate-credentials :
      length user < word_capacity
      → length pass < word_capacity
      → (Any (Matches user pass) m.users
          → authenticate m (credentials user pass) unset ≡ done (true, user))
        × (¬ Any (Matches user pass) m.users
            → authenticate m (credentials user pass) unset ≡ done (true, unset))
  authenticate-credentials h k = elim (Bool-cases (password_login m.users user pass)) [
    | inl hit ↦ (
      λ has. authenticate_login h k ∙ rw hit refl,
      λ lacks. absurd (lacks ((password_login_iff m.users user pass).0 hit)),
    )
    | inr miss ↦ (
      λ has. absurd (let found = (password_login_iff m.users user pass).1 has in cc),
      λ lacks. authenticate_login h k ∙ rw miss refl,
    )
  ]

  -- For a name without a colon and a password, both non-empty and without white space or zeros: a
  -- name of 128 bytes or more runs over the array on the stack, whoever is registered.
  pub authenticate_overflow :
      word_capacity ≤ length user
      → authenticate m (credentials user pass) unset ≡ fault buffer_overflow
  authenticate_overflow h = rw (
    authenticate_reads,
    read_word_front word_capacity user pass u,
    le→ltb-false (length user) word_capacity h,
  )

-- The text is Base64.
abbrev pub Decodes : Bytes → Type 0
Decodes creds = (buf : Bytes) × (size : ℕ) × (base64_decode creds ≡ some (buf, size))

-- The text decodes to this name and this password: the first two words of what it encodes, once
-- the colons are spaces.
pub record Carries (creds name pass : Bytes) : Type 0 where
  pub buffer : Bytes
  pub size : ℕ
  pub behind_name : Bytes
  pub behind_pass : Bytes
  pub decoded : base64_decode creds ≡ some (buffer, size)
  pub named : read_word word_capacity (split_colon (c_str buffer)) ≡ done (name, behind_name)
  pub proved : read_word word_capacity behind_name ≡ done (pass, behind_pass)

words_login :
    (m : AuthManager) (creds unset : Bytes) (granted : Bool) (name : Bytes)
    → Decodes creds
    → authenticate m creds unset ≡ done (granted, name)
    → (user pass : Bytes) × Carries creds user pass
      × (granted ≡ true)
      × (name ≡ (if password_login m.users user pass then user else unset))
unfolding authenticate
words_login m creds unset granted name (buf, size, e) h =
    let shown = rw (e, authenticate) at h in
    let (first, named, later) =
      >>=-eq-done (read_word word_capacity (split_colon (c_str buf))) _ shown in
    let (second, proved, last) = >>=-eq-done (read_word word_capacity first.1) _ later in
    (
      first.0,
      second.0,
      record {
        buffer = buf;
        size = size;
        behind_name = first.1;
        behind_pass = second.1;
        decoded = e;
        named = named;
        proved = proved;
      },
      ground arith,
      ground arith,
    )

-- When the call returns, its result says only whether the text was Base64, whatever the password.
-- The user name stays as it was, or is set to the name that the text carries, and then some user
-- has that name and the password that the text carries.
pub authenticate_result :
    (m : AuthManager) (creds unset : Bytes) (granted : Bool) (name : Bytes)
    → authenticate m creds unset ≡ done (granted, name)
    → ((granted ≡ true) ↔ Decodes creds)
      × ((name ≡ unset)
          ⊎ ((pass : Bytes) × Carries creds name pass × Any (Matches name pass) m.users))
unfolding authenticate
authenticate_result m creds unset granted name h = elim (Option-cases (base64_decode creds)) [
  | inl bad ↦
      let shown = rw (bad, authenticate) at h in
      ((λ g. cc, λ (buf, size, good). cc), inl (ground arith))
  | inr ((buf, size), good) ↦
      let (user, pass, carried, yes_granted, named) =
        words_login m creds unset granted name (buf, size, good) h in
      (
        (λ _. (buf, size, good), λ _. yes_granted),
        elim (Bool-cases (password_login m.users user pass)) [
          | inl hit ↦
              let same : name ≡ user = ground arith in
              let (carried', found) =
                subst (λ n. Carries creds n pass × Any (Matches n pass) m.users) (sym same)
                  (carried, (password_login_iff m.users user pass).0 hit) in
              inr (pass, carried', found)
          | inr miss ↦ inl (ground arith)
        ],
      )
]
