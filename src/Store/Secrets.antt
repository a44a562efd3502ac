-- ===== src/Store/Secrets.antt =====
-- internal/store/store.go: secrets are kept per cluster and kind.
use kaa_s_demo.Go.Strings.Last.{has_byte, split_last}
use kaa_s_demo.Prelude.Dict.{get-put, get-put_self}
use kaa_s_demo.Prelude.Any.{any}
use kaa_s_demo.Domain.Phase.{SecretKind, kind_text}
use kaa_s_demo.Prelude.{
  text_eq_iff, refl, Bool-cases, arith, text_eq, ◌≡◌, Text, some, inl, inr, true, false,
}
use kaa_s_demo.Store.Memory.{Memory}
use kaa_s_demo.Store.Log.{secret_key, save_secret, get_secret}

kind_slash : (k : SecretKind) → has_byte b'/' (kind_text k) ≡ false
unfolding kind_text any
kind_slash SecretKind.kubeconfig = refl
kind_slash SecretKind.kubeconfig_viewer = refl
kind_slash SecretKind.join_token = refl
kind_slash SecretKind.ssh_key = refl
kind_slash SecretKind.registry_pull = refl

kind_text_inj : (k k' : SecretKind) → text_eq (kind_text k) (kind_text k') ≡ true → k ≡ k'
unfolding kind_text text_eq
kind_text_inj k k' h = ground arith

-- A secret reads as the last one saved for its cluster and kind, and no other secret changes.
pub get_secret-save_secret :
    (m : Memory) (cluster cluster' : Text) (kind kind' : SecretKind) (ciphertext : Text)
    → (get_secret (save_secret m cluster kind ciphertext) cluster kind ≡ some ciphertext)
      × ((¬ ((cluster ≡ cluster') × (kind ≡ kind')))
          → get_secret (save_secret m cluster kind ciphertext) cluster' kind'
            ≡ get_secret m cluster' kind')
unfolding save_secret get_secret secret_key
get_secret-save_secret m cluster cluster' kind kind' ciphertext = (
  get-put_self m.secrets (secret_key cluster kind) ciphertext,
  λ differ. elim (Bool-cases (text_eq (secret_key cluster kind) (secret_key cluster' kind'))) [
    | inr other ↦ rw (get-put, other) refl
    | inl same ↦
        let (id, text) =
          split_last b'/' cluster cluster' (kind_text kind) (kind_text kind') (kind_slash kind)
            (kind_slash kind') ((text_eq_iff _ _).0 same) in
        absurd (differ (id, kind_text_inj kind kind' ((text_eq_iff _ _).1 text)))
  ],
)
