-- ===== src/Tests/Codec.antt =====
-- Concrete stand-ins for the third-party crates, and the proof that they keep what the crates
-- promise. A text is written with its length in front; the cipher writes its key in front.
use zz_drop.Prelude.{
  ℕ, zero, suc, subst, sym, ap, ◌∙◌, Text, Bytes, codes, ◌≡◌, refl, Option, none, some, List, [],
  ◌∷◌, ◌++◌, text_eq, text_eq_refl, text_eq_iff, length, take, drop, take-length-append,
  drop-length-append, arith, if◌then◌else◌, ◌==◌,
}
use zz_drop.Profile.{
  CollisionPolicy, NextcloudAuth, NextcloudProfile, ProviderProfile, UnknownProvider, PlainProfile,
}
use zz_drop.Profile.Container.{ProfileSet}
use zz_drop.Profile.Crypto.{ProfileEnvelope, Libraries, Cbor}
use zz_drop.Profile.Crypto.CborTree.{Value, Entries, tagged}
use zz_drop.Profile.Crypto.Lawful.{Lawful, RoundTrips, CarrierForm}

unfoldable pub puts : List Text → Bytes
puts [] = []
puts (t ∷ ts) = length t ∷ (t ++ puts ts)

unfoldable pub gets : ℕ → Bytes → List Text
gets zero bytes = []
gets (suc n) [] = []
gets (suc n) (k ∷ bytes) = take k bytes ∷ gets n (drop k bytes)

gets-puts : (ts : List Text) → gets (length ts) (puts ts) ≡ ts
unfolding gets puts
gets-puts [] = refl
gets-puts (t ∷ ts) =
    rw (take-length-append t (puts ts), drop-length-append t (puts ts), gets-puts ts) refl

abbrev envelope_texts : ProfileEnvelope → List Text
envelope_texts e =
    e.kdf.name ∷ e.kdf.salt ∷ e.cipher.name ∷ e.cipher.nonce ∷ e.payload.format
    ∷ e.payload.ciphertext ∷ []

abbrev pub print_envelope : ProfileEnvelope → Option Text
print_envelope e =
    some (
      e.version ∷ e.kdf.memory_kib ∷ e.kdf.iterations ∷ e.kdf.parallelism ∷ puts (envelope_texts e))

abbrev envelope_from :
    (version memory iterations parallelism : ℕ) → List Text → Option ProfileEnvelope
envelope_from v m i p (name ∷ salt ∷ cipher ∷ nonce ∷ format ∷ ciphertext ∷ []) = some (record {
  version = v;
  kdf = record { name = name; memory_kib = m; iterations = i; parallelism = p; salt = salt };
  cipher = record { name = cipher; nonce = nonce };
  payload = record { format = format; ciphertext = ciphertext };
})
envelope_from v m i p _ = none

abbrev pub parse_envelope : Text → Option ProfileEnvelope
parse_envelope (v ∷ m ∷ i ∷ p ∷ texts) = envelope_from v m i p (gets 6 texts)
parse_envelope _ = none

parse-print :
    (e : ProfileEnvelope) (t : Text) → print_envelope e ≡ some t → parse_envelope t ≡ some e
parse-print e t h =
    let same : (e.version
          ∷ e.kdf.memory_kib
          ∷ e.kdf.iterations
          ∷ e.kdf.parallelism
          ∷ puts (envelope_texts e))
        ≡ t =
      ground arith in
    subst (λ u. parse_envelope u ≡ some e) same (rw (gets-puts (envelope_texts e)) refl)

-- A profile with one Nextcloud account under an app password that renames on collision; the encoder
-- fails on any other.
abbrev profile_texts : (profile : PlainProfile) → (url user secret root : Text) → List Text
profile_texts p url user secret root =
    p.profile_id ∷ p.alias ∷ p.default_target ∷ p.created_at ∷ p.updated_at ∷ url ∷ user ∷ secret
    ∷ root ∷ []

abbrev put_account : PlainProfile → NextcloudProfile → NextcloudAuth → Option Bytes
put_account p n (NextcloudAuth.app_password secret) = some (
    p.profile_version
    ∷ p.settings.unlock_ttl_secs
    ∷ p.settings.agent_idle_exit_secs
    ∷ puts (profile_texts p n.server_url n.username secret n.remote_root))
put_account p n (NextcloudAuth.login_flow_token _) = none

abbrev put_profile : PlainProfile → List ProviderProfile → CollisionPolicy → Option Bytes
put_profile p (ProviderProfile.nextcloud n ∷ []) CollisionPolicy.rename = put_account p n n.auth
put_profile p _ _ = none

abbrev pub write_profile : PlainProfile → Option Bytes
write_profile p = put_profile p p.providers p.collision_policy

abbrev profile_from : (version ttl idle : ℕ) → List Text → Option PlainProfile
profile_from v ttl idle
      (id ∷ alias ∷ target ∷ created ∷ updated ∷ url ∷ user ∷ secret ∷ root ∷ []) =
    some (record {
      profile_version = v;
      profile_id = id;
      alias = alias;
      default_target = target;
      providers =
          ProviderProfile.nextcloud (record {
            server_url = url;
            username = user;
            auth = NextcloudAuth.app_password secret;
            remote_root = root;
          })
          ∷ [];
      collision_policy = CollisionPolicy.rename;
      settings = record { unlock_ttl_secs = ttl; agent_idle_exit_secs = idle };
      created_at = created;
      updated_at = updated;
    })
profile_from v ttl idle _ = none

abbrev pub read_profile : Bytes → Option PlainProfile
read_profile (v ∷ ttl ∷ idle ∷ texts) = profile_from v ttl idle (gets 9 texts)
read_profile _ = none

abbrev pub cbor_profile : Cbor PlainProfile
cbor_profile = record { into_writer = write_profile; from_reader = read_profile }

module _ (p : PlainProfile) (n : NextcloudProfile) (secret : Text) where
  abbrev with_account : PlainProfile
  with_account = record p {
    providers =
        ProviderProfile.nextcloud (record n { auth = NextcloudAuth.app_password secret }) ∷ [];
    collision_policy = CollisionPolicy.rename;
  }

  read-with_account :
      (bytes : Bytes)
      → write_profile with_account ≡ some bytes
      → read_profile bytes ≡ some with_account
  read-with_account bytes h =
      let texts = profile_texts p n.server_url n.username secret n.remote_root in
      let same : (p.profile_version
            ∷ p.settings.unlock_ttl_secs
            ∷ p.settings.agent_idle_exit_secs
            ∷ puts texts)
          ≡ bytes =
        ground arith in
      subst (λ b. read_profile b ≡ some with_account) same (rw (gets-puts texts) refl)

-- What the encoder takes has that form.
put_account-form :
    (p : PlainProfile) (n : NextcloudProfile) (auth : NextcloudAuth) (bytes : Bytes)
    → put_account p n auth ≡ some bytes
    → (secret : Text) × (auth ≡ NextcloudAuth.app_password secret)
put_account-form p n (NextcloudAuth.app_password secret) bytes h = (secret, refl)
put_account-form p n (NextcloudAuth.login_flow_token secret) bytes h = cc

put_profile-form :
    (p : PlainProfile) (providers : List ProviderProfile) (policy : CollisionPolicy) (bytes : Bytes)
    → put_profile p providers policy ≡ some bytes
    → (n : NextcloudProfile) × ((secret : Text) × (n.auth ≡ NextcloudAuth.app_password secret)
        × (providers ≡ ProviderProfile.nextcloud n ∷ [])
        × (policy ≡ CollisionPolicy.rename))
put_profile-form p (ProviderProfile.nextcloud n ∷ []) CollisionPolicy.rename bytes h =
    let (secret, auth) = put_account-form p n n.auth bytes h in (n, (secret, auth, refl, refl))
put_profile-form p _ _ bytes h = cc

cbor_profile-RoundTrips : RoundTrips cbor_profile
cbor_profile-RoundTrips p bytes h =
    let (n, (secret, auth, providers, policy)) =
      put_profile-form p p.providers p.collision_policy bytes h in
    let account : ProviderProfile.nextcloud n ∷ []
        ≡ ProviderProfile.nextcloud (record n { auth = NextcloudAuth.app_password secret }) ∷ [] =
      ap (λ a. ProviderProfile.nextcloud (record n { auth = a }) ∷ []) auth in
    let form : p ≡ with_account p n secret =
      ap (λ ps. record p { providers = ps }) (providers ∙ account)
      ∙ ap
          (λ c.
            record (record p {
              providers =
                  ProviderProfile.nextcloud (record n { auth = NextcloudAuth.app_password secret })
                  ∷ [];
            }) { collision_policy = c })
          policy in
    subst (λ q. read_profile bytes ≡ some q) (sym form)
      (read-with_account p n secret bytes (subst (λ q. write_profile q ≡ some bytes) form h))

-- The sets of one profile; a set is told from a profile by its first number.
abbrev headed : ℕ → Option Bytes → Option Bytes
headed schema none = none
headed schema (some bytes) = some (9 ∷ schema ∷ bytes)

abbrev put_set : ℕ → List PlainProfile → Option Bytes
put_set schema (p ∷ []) = headed schema (write_profile p)
put_set schema _ = none

abbrev set_of : ℕ → Option PlainProfile → Option ProfileSet
set_of schema none = none
set_of schema (some p) = some (record { schema_version = schema; profiles = p ∷ [] })

abbrev read_set : Bytes → Option ProfileSet
read_set (k ∷ schema ∷ bytes) = if k == 9 then set_of schema (read_profile bytes) else none
read_set _ = none

abbrev pub cbor_set : Cbor ProfileSet
cbor_set = record {
  into_writer = λ set. put_set set.schema_version set.profiles;
  from_reader = read_set;
}

headed-eq-some :
    (schema : ℕ) (o : Option Bytes) (bytes : Bytes)
    → headed schema o ≡ some bytes
    → (inner : Bytes) × (o ≡ some inner) × (9 ∷ schema ∷ inner ≡ bytes)
headed-eq-some schema none bytes h = cc
headed-eq-some schema (some inner) bytes h = (inner, refl, ground arith)

read-put_set :
    (schema : ℕ) (profiles : List PlainProfile) (bytes : Bytes)
    → put_set schema profiles ≡ some bytes
    → read_set bytes ≡ some (record { schema_version = schema; profiles = profiles })
read-put_set schema (p ∷ []) bytes h =
    let (inner, wrote, same) = headed-eq-some schema (write_profile p) bytes h in
    subst (λ b. read_set b ≡ some (record { schema_version = schema; profiles = p ∷ [] })) same
      (rw (cbor_profile-RoundTrips p inner wrote) refl)
read-put_set schema [] bytes h = cc
read-put_set schema (p ∷ q ∷ ps) bytes h = cc

-- Trees: texts, the unread constructors, and the form of a carrier.
abbrev carrier_bytes : Text → Bytes → Option Bytes
carrier_bytes k bs = if text_eq k (codes "unknown") then some (3 ∷ bs) else none

abbrev write_value : Value → Option Bytes
write_value (Value.text t) = some (1 ∷ t)
write_value (Value.other n) = some (2 ∷ n ∷ [])
write_value (Value.entries (Entries.entry (Value.text k) (Value.text bs) Entries.end)) =
    carrier_bytes k bs
write_value _ = none

abbrev other_of : Bytes → Option Value
other_of (n ∷ []) = some (Value.other n)
other_of _ = none

abbrev read_value : Bytes → Option Value
read_value [] = none
read_value (k ∷ bs) =
    if k == 1
    then some (Value.text bs)
    else if k == 2
    then other_of bs
    else if k == 3
    then some (tagged (codes "unknown") (Value.text bs))
    else none

abbrev pub cbor_value : Cbor Value
cbor_value = record { into_writer = write_value; from_reader = read_value }

carrier_bytes-eq-some :
    (k : Text) (bs bytes : Bytes)
    → carrier_bytes k bs ≡ some bytes
    → (k ≡ codes "unknown") × (3 ∷ bs ≡ bytes)
carrier_bytes-eq-some k bs bytes h = ground (arith, text_eq_iff k (codes "unknown"))

cbor_value-RoundTrips : RoundTrips cbor_value
cbor_value-RoundTrips (Value.text t) bytes h =
    let same : 1 ∷ t ≡ bytes = ground arith in
    subst (λ b. read_value b ≡ some (Value.text t)) same refl
cbor_value-RoundTrips (Value.other n) bytes h =
    let same : 2 ∷ n ∷ [] ≡ bytes = ground arith in
    subst (λ b. read_value b ≡ some (Value.other n)) same refl
cbor_value-RoundTrips (Value.entries (Entries.entry (Value.text k) (Value.text bs) Entries.end))
      bytes h =
    let (unknown_, same) = carrier_bytes-eq-some k bs bytes h in
    subst (λ b. read_value b ≡ some (tagged k (Value.text bs))) same (rw unknown_ refl)
cbor_value-RoundTrips _ bytes h = cc

abbrev write_provider : ProviderProfile → Option Bytes
write_provider (ProviderProfile.unknown u) = some (3 ∷ puts (u.tag ∷ u.payload_cbor ∷ []))
write_provider _ = none

abbrev carrier_from : List Text → Option ProviderProfile
carrier_from (t ∷ p ∷ []) = some (ProviderProfile.unknown (record { tag = t; payload_cbor = p }))
carrier_from _ = none

abbrev read_provider : Bytes → Option ProviderProfile
read_provider [] = none
read_provider (_ ∷ bs) = carrier_from (gets 2 bs)

-- only the key that sealed opens
abbrev opened_by : Bytes → List Text → Option Bytes
opened_by key (k ∷ plaintext ∷ []) = if text_eq key k then some plaintext else none
opened_by key _ = none

opens :
    (key plaintext ciphertext : Bytes)
    → some (puts (key ∷ plaintext ∷ [])) ≡ some ciphertext
    → opened_by key (gets 2 ciphertext) ≡ some plaintext
opens key plaintext ciphertext h =
    let texts = key ∷ plaintext ∷ [] in
    let same : puts texts ≡ ciphertext = ground arith in
    subst (λ c. opened_by key (gets 2 c) ≡ some plaintext) same
      (rw (gets-puts texts, text_eq_refl key) refl)

abbrev pub toy : Libraries
toy = record {
  base64_encode = λ bytes. bytes;
  base64_decode = λ t. some t;
  json_to_string = print_envelope;
  json_from_str = parse_envelope;
  out_of_range = λ config. codes "parameters out of range";
  params_new = λ config. none;
  hash_password_into = λ config passphrase salt. some (passphrase ++ salt);
  encrypt = λ key nonce plaintext. some (puts (key ∷ plaintext ∷ []));
  decrypt = λ key nonce ciphertext. opened_by key (gets 2 ciphertext);
  cbor_set = cbor_set;
  cbor_profile = cbor_profile;
  cbor_provider = record { into_writer = write_provider; from_reader = read_provider };
  cbor_value = cbor_value;
}

carrier : (u : UnknownProvider) → CarrierForm toy u
unfolding text_eq
carrier u =
    let texts = u.tag ∷ u.payload_cbor ∷ [] in
    (
      Value.text (puts texts),
      (3 ∷ puts texts, 3 ∷ puts texts, refl, refl, refl, rw (gets-puts texts) refl),
    )

pub toy-Lawful : Lawful toy
toy-Lawful = record {
  base64 = λ bytes. refl;
  json = parse-print;
  aead = λ key nonce plaintext ciphertext h. opens key plaintext ciphertext h;
  sets = λ set bytes h. read-put_set set.schema_version set.profiles bytes h;
  profiles = cbor_profile-RoundTrips;
  values = cbor_value-RoundTrips;
  carriers = carrier;
}
