-- ===== src/Examples/World.antt =====
-- A concrete world: a clock that ticks, a database that does not fail, a counter for a random
-- source, and a cipher that is not secret but lawful.
use scopuli.Prelude.{
  All, Bytes, List, Text, [], ap, append_split, arith, codes, false, if◌then◌else◌, length,
  length-append, ltb, none, refl, replicate, some, suc, take, take-append_of, true, zero, ℕ, ◌*◌,
  ◌++◌, ◌+◌, ◌-◌, ◌∷◌, ◌≡◌, ◌≢◌, ◌≤◌,
}
use scopuli.Api.{Server}
use scopuli.Audit.{Logger}
use scopuli.Auth.{Principal, key}
use scopuli.Env.{
  Any, Env, FillsRandom, IsArgon, IsBase64, IsChacha, IsGcm, IsJson, IsSha, SameShape, TextMap, num,
  other, str,
}
use scopuli.Store.Database.{World}
use scopuli.Token.{hex, hex_digit}

abbrev padding : Bytes
padding = replicate 16 0

abbrev digest : Bytes → Bytes
digest m = take 32 (m ++ replicate 32 0)

length-take : (n : ℕ) (xs : Bytes) → n ≤ length xs → length (take n xs) ≡ n
length-take zero xs h = refl
length-take (suc n) [] h = absurd (omega arith)
length-take (suc n) (x ∷ xs) h = ap suc (length-take n xs (omega arith))

length-replicate : (n x : ℕ) → length (replicate n x) ≡ n
length-replicate zero x = refl
length-replicate (suc n) x = ap suc (length-replicate n x)

abbrev row_numbers : List (ℕ × Text × Text × Text) → List ℕ
row_numbers [] = []
row_numbers ((i, _, _, _) ∷ rows) = i ∷ row_numbers rows

abbrev hex_value : ℕ → ℕ
hex_value c = if ltb c b'a' then c - b'0' else c - b'a' + 10

-- The bytes that `hex` wrote.
abbrev unhex : Text → Bytes
unhex [] = []
unhex (c ∷ []) = []
unhex (c ∷ d ∷ t) = (hex_value c * 16 + hex_value d) ∷ unhex t

-- The values of an object, a text with its length before it.
abbrev rendered : TextMap Any → Text
rendered [] = []
rendered ((k, str t) ∷ m) = length t ∷ (t ++ rendered m)
rendered ((k, num n) ∷ m) = n ∷ rendered m
rendered ((k, other t) ∷ m) = length t ∷ (t ++ rendered m)

instance abbrev pub demo_env : Env
demo_env = record {
  time_at = λ event. (event + 1000) * 1000000;
  fault_at = λ event. false;
  random_at = λ event n. some (replicate n event);
  sha256 = digest;
  hmac_sha256 = λ key m. digest (key ++ m);
  gcm_seal = λ key nonce plain aad. plain ++ padding;
  gcm_open = λ key nonce sealed aad. some (take (length sealed - 16) sealed);
  argon2id =
      λ password salt iterations memory lanes n. take n (password ++ (salt ++ replicate n 0));
  unmarshal = λ t. some (some ((codes "team", str (codes "core")) ∷ []));
  marshal = rendered;
  parse_duration = λ t. none;
  fts_match = λ query rows. some (row_numbers rows);
  base64url = hex;
  base64url_decode = λ t. some (unhex t);
  chacha_seal = λ key nonce plain aad. plain ++ padding;
  chacha_open = λ key nonce sealed aad. some (take (length sealed - 16) sealed);
  templates_parse = true;
  io_fault_at = λ event. none;
}

pub demo_no_faults : (n : ℕ) → demo_env.fault_at n ≡ false
demo_no_faults n = refl

pub demo_delivers : (event n : ℕ) → (b : Bytes) × (demo_env.random_at event n ≡ some b)
demo_delivers event n = (replicate n event, refl)

pub demo-IsGcm : IsGcm demo_env
demo-IsGcm = record {
  length-seal = λ key nonce plain aad. length-append plain padding;
  open-seal = λ key nonce plain aad. ap some (opened plain);
}
  where
    opened : (plain : Bytes) → take (length (plain ++ padding) - 16) (plain ++ padding) ≡ plain
    opened plain =
        take-append_of (length (plain ++ padding) - 16) plain padding
          (omega (arith, length-append plain padding))

unhex-hex : (b : Bytes) → unhex (hex b) ≡ b
unfolding hex hex_digit
unhex-hex [] = refl
unhex-hex (x ∷ b) = ground (arith, unhex-hex b)

hex-no_stop : (b : Bytes) → All (λ c. c ≢ b'.') (hex b)
unfolding hex hex_digit
hex-no_stop [] = tt
hex-no_stop (x ∷ b) = (ground arith, (ground arith, hex-no_stop b))

pub demo-IsBase64 : IsBase64 demo_env
demo-IsBase64 = record { decode-encode = λ b. ap some (unhex-hex b); no_stop = hex-no_stop }

pub demo-IsArgon : IsArgon demo_env
demo-IsArgon = record {
  length-argon2id = λ password salt iterations memory lanes n.
      length-take n (password ++ (salt ++ replicate n 0)) (
        omega (
          arith,
          length-append password (salt ++ replicate n 0),
          length-append salt (replicate n 0),
          length-replicate n 0,
        ));
}

pub demo-IsChacha : IsChacha demo_env
demo-IsChacha = record {
  open-seal = λ key nonce plain aad. demo-IsGcm.open-seal key nonce plain aad;
}

pub demo-FillsRandom : FillsRandom demo_env
demo-FillsRandom = record {
  length-random =
      λ event n b e. ground (arith, ap length (some_injective e), length-replicate n event);
}
  where
    some_injective : {a b : Bytes} → some a ≡ some b → a ≡ b
    some_injective e = ground arith

rendered-injective : (m n : TextMap Any) → SameShape m n → rendered m ≡ rendered n → m ≡ n
rendered-injective [] [] h e = refl
rendered-injective ((j, str a) ∷ m) ((k, str b) ∷ n) (h, hs) e =
    let (p, q) = append_split a b (rendered m) (rendered n) (cc) (cc) in
    let rest = rendered-injective m n hs q in cc
rendered-injective ((j, num a) ∷ m) ((k, num b) ∷ n) (h, hs) e =
    let rest = rendered-injective m n hs (cc) in cc
rendered-injective [] (f ∷ n) h e = elim h [ ]
rendered-injective ((j, str a) ∷ m) [] h e = elim h [ ]
rendered-injective ((j, str a) ∷ m) ((k, num b) ∷ n) h e = elim h [ ]
rendered-injective ((j, str a) ∷ m) ((k, other b) ∷ n) h e = elim h [ ]
rendered-injective ((j, num a) ∷ m) [] h e = elim h [ ]
rendered-injective ((j, num a) ∷ m) ((k, str b) ∷ n) h e = elim h [ ]
rendered-injective ((j, num a) ∷ m) ((k, other b) ∷ n) h e = elim h [ ]
rendered-injective ((j, other a) ∷ m) n h e = elim h [ ]

pub demo-IsJson : IsJson demo_env
demo-IsJson = record { marshal_injective = rendered-injective }

pub demo-IsSha : IsSha demo_env
demo-IsSha = record {
  length-sha256 =
      λ m. length-take 32 (m ++ replicate 32 0) (omega (arith, length-append m (replicate 32 0)));
}

abbrev pub demo_kek : Bytes
demo_kek = replicate 32 7

abbrev pub demo_logger : Logger
demo_logger = record { hmac_key = replicate 32 9 }

abbrev pub demo_server : Server
demo_server = record {
  audit = some demo_logger;
  kek = demo_kek;
  operator_name = codes "root";
  session_key = [];
}

abbrev pub empty_world : World
empty_world = record {
  db = record {
    meta = [];
    operators = [];
    secrets = [];
    keys = [];
    audit = [];
    secrets_fts = [];
    keys_fts = [];
  };
  events = 0;
}

-- A key that may write below `prod`.
abbrev pub writer : Principal
writer = record {
  kind = key;
  id = 1;
  name = codes "ci";
  scope = codes "prod/*" ∷ [];
  has_read = true;
  has_write = true;
}

abbrev pub reader : Principal
reader = record writer { id = 2; name = codes "bot"; has_write = false }
