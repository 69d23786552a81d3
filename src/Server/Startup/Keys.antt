-- ===== src/Server/Startup/Keys.antt =====
-- When a server asks for tokens, and which limits it can have.
use sodp.Base.{
  ℕ, ◌+◌, ◌*◌, ◌-◌, ◌^◌, ◌<◌, String, ◌≡◌, ◌↔◌, refl, sym, ◌∙◌, Option, none, some, none-ne-some,
  arith, Option-cases, inl, inr, Bool-cases, ◌==◌,
}
use Prim.Native.Char.{code}
use sodp.Server.Startup.{
  Env, parse_digits, parse_uint, number_var, unwrap_or, Limits, read_limits, key_file,
  read_jwt_config, default_backpressure_limit,
}

-- A server asks for no tokens exactly when the environment has neither a public key nor a secret,
-- and names no key file or one that cannot be read.
pub read_jwt_config-none :
    (env : Env) (read_to_string : String → Option String)
    → (read_jwt_config env read_to_string ≡ none) ↔ (
        (env "SODP_JWT_PUBLIC_KEY" ≡ none)
        × ((path : String)
            → env "SODP_JWT_PUBLIC_KEY_FILE" ≡ some path
            → read_to_string path ≡ none)
        × (env "SODP_JWT_SECRET" ≡ none))
unfolding read_jwt_config
read_jwt_config-none env read_to_string = elim (Option-cases (env "SODP_JWT_PUBLIC_KEY")) [
  | inr (pem, e) ↦
      rw (e, read_jwt_config)
        ((λ h. absurd (none-ne-some _ (sym h))), λ k. absurd (none-ne-some _ (sym k.0)))
  | inl e ↦ elim (Option-cases (key_file env read_to_string)) [
    | inr (pem, k) ↦
        rw (e, read_jwt_config)
          (rw (k, read_jwt_config)
            (
              (λ h. absurd (none-ne-some _ (sym h))),
              λ (a, unread, b). absurd (no_key_file unread k),
            ))
    | inl k ↦ elim (Option-cases (env "SODP_JWT_SECRET")) [
      | inr (secret, f) ↦
          rw (e, read_jwt_config)
            (rw (k, read_jwt_config)
              (rw (f, read_jwt_config)
                (
                  (λ h. absurd (none-ne-some _ (sym h))),
                  λ (a, unread, b). absurd (none-ne-some _ (sym b)),
                )))
      | inl f ↦
          rw (e, read_jwt_config)
            (rw (k, read_jwt_config)
              (rw (f, read_jwt_config)
                ((λ h. (refl, (λ path found. unread path found k), refl)), λ q. refl)))
    ]
  ]
]
  where
    unread :
        (path : String)
        → env "SODP_JWT_PUBLIC_KEY_FILE" ≡ some path
        → key_file env read_to_string ≡ none
        → read_to_string path ≡ none
    unread path found k = rw (found, key_file) at k

    no_key_file :
        {pem : String}
        → ((path : String)
            → env "SODP_JWT_PUBLIC_KEY_FILE" ≡ some path
            → read_to_string path ≡ none)
        → key_file env read_to_string ≡ some pem
        → ⊥
    no_key_file none_read k = elim (Option-cases (env "SODP_JWT_PUBLIC_KEY_FILE")) [
      | inl no_file ↦ none-ne-some _ (rw (no_file, key_file) at k)
      | inr (path, found) ↦
          none-ne-some _ (sym (none_read path found) ∙ (rw (found, key_file) at k))
    ]

parse_digits-below :
    (bound acc : ℕ) (s : String) (n : ℕ)
    → acc < bound
    → parse_digits bound acc s ≡ some n
    → n < bound
unfolding parse_digits
parse_digits-below bound acc String.[] n h e = ground arith
parse_digits-below bound acc (String.◌∷◌ c s) n h e =
    ground (arith, parse_digits-below bound (acc * 10 + (code c - 0x30)) s n)

parse_uint-below :
    (bound : ℕ) (s : String) (n : ℕ) → 0 < bound → parse_uint bound s ≡ some n → n < bound
unfolding parse_uint
parse_uint-below bound String.[] n h e = ground arith
parse_uint-below bound (String.◌∷◌ c String.[]) n h e =
    parse_digits-below bound 0 (String.◌∷◌ c String.[]) n h e
parse_uint-below bound (String.◌∷◌ c (String.◌∷◌ d s)) n h e = elim (Bool-cases (code c == 0x2B)) [
  | inl plus ↦ parse_digits-below bound 0 (String.◌∷◌ d s) n h (rw plus at e)
  | inr digit ↦ parse_digits-below bound 0 (String.◌∷◌ c (String.◌∷◌ d s)) n h (rw digit at e)
]

below_default :
    (o : Option ℕ) (bound d : ℕ)
    → ((n : ℕ) → o ≡ some n → n < bound)
    → d < bound
    → unwrap_or o d < bound
below_default none bound d h k = k
below_default (some n) bound d h k = h n refl

number_var-below :
    (env : Env) (bound : ℕ) (name : String) (n : ℕ)
    → 0 < bound
    → number_var env bound name ≡ some n
    → n < bound
number_var-below env bound name n p e = elim (Option-cases (env name)) [
  | inl unset ↦ absurd (none-ne-some _ (rw (unset, number_var) at e))
  | inr (s, set) ↦ parse_uint-below bound s n p (rw (set, number_var) at e)
]

size_below :
    (env : Env) (name : String) (d : ℕ)
    → d < 2 ^ 64
    → unwrap_or (number_var env (2 ^ 64) name) d < 2 ^ 64
size_below env name d h =
    below_default (number_var env (2 ^ 64) name) (2 ^ 64) d
      (λ n. number_var-below env (2 ^ 64) name n (omega arith)) h

-- The limits of a machine word.
pub record IsInRange (l : Limits) : Type 0 where
  pub frames : l.max_frame_bytes < 2 ^ 64
  pub pings : l.ws_ping_interval < 2 ^ 64
  pub queue : l.backpressure_limit < 2 ^ 64
  pub sockets : (n : ℕ) → l.max_connections ≡ some n → n < 2 ^ 64
  pub writes : (n : ℕ) → l.rate_writes ≡ some n → n < 2 ^ 32
  pub watches : (n : ℕ) → l.rate_watches ≡ some n → n < 2 ^ 32

-- Whatever the environment holds, each limit of the server fits the width of its type.
pub read_limits-IsInRange : (env : Env) → IsInRange (read_limits env)
unfolding read_limits
read_limits-IsInRange env = record {
  frames = size_below env "SODP_MAX_FRAME_BYTES" 1_048_576 (omega arith);
  pings = size_below env "SODP_WS_PING_INTERVAL" 25 (omega arith);
  queue = size_below env "SODP_BACKPRESSURE_LIMIT" default_backpressure_limit (omega arith);
  sockets = λ n. number_var-below env (2 ^ 64) "SODP_MAX_CONNECTIONS" n (omega arith);
  writes = λ n. number_var-below env (2 ^ 32) "SODP_RATE_WRITES_PER_SEC" n (omega arith);
  watches = λ n. number_var-below env (2 ^ 32) "SODP_RATE_WATCHES_PER_SEC" n (omega arith);
}
