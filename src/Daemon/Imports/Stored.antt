-- ===== src/Daemon/Imports/Stored.antt =====
-- internal/daemon/daemon.go, `ImportBundle`: what one `Add` after another leaves in the store.
use goat_client.Prelude.{some, Str, ◌≡◌, ap, ◌∙◌, ◌⊎◌, inl, inr}
use goat_client.Prelude.Assoc.{lookup}
use goat_client.Bundle.{EnrollmentBundle}
use goat_client.Profile.Disk.{Disk, StoreError, ok, err}
use goat_client.Profile.Store.{Env, Info, AddRequest}
use goat_client.Profile.Store.Rules.{OthersKept, Unchanged}
use goat_client.Profile.Store.Add.{Verified, AddSpec}

-- Only the files of one slug have changed, by an `Add` of these bytes that passed its checks.
pub record Stored (env : Env) (bytes : Str) (d d' : Disk) (s : Str) : Type 0 where
  pub req : AddRequest
  pub same_bytes : req.bundle_bytes ≡ bytes
  pub b : EnrollmentBundle
  pub verified : Verified env req s b
  pub others : OthersKept s d d'

module _ (env : Env) (bytes : Str) where
  -- Nothing has changed, or the files of one slug and not the marker.
  abbrev pub Kept : Disk → Disk → Type 0
  Kept d d' = Unchanged d d' ⊎ ((s : Str) × (Stored env bytes d d' s × (d'.active ≡ d.active)))

  -- The bytes stand under the slug.
  abbrev pub Landed : Disk → Disk → Str → Type 0
  Landed d d' s = Stored env bytes d d' s × (lookup s d'.bundles ≡ some bytes)

  pub since :
      (d₀ d₁ d₂ : Disk) (s : Str)
      → Unchanged d₀ d₁
      → Stored env bytes d₁ d₂ s
      → Stored env bytes d₀ d₂ s
  since d₀ d₁ d₂ s (em, (eb, ea)) st = record {
    req = st.req;
    same_bytes = st.same_bytes;
    b = st.b;
    verified = st.verified;
    others = λ k e. let (h1, h2) = st.others k e in (h1 ∙ ap (lookup k) em, h2 ∙ ap (lookup k) eb);
  }

  pub until :
      (d₀ d₁ d₂ : Disk) (s : Str)
      → Stored env bytes d₀ d₁ s
      → d₂.metas ≡ d₁.metas
      → d₂.bundles ≡ d₁.bundles
      → Stored env bytes d₀ d₂ s
  until d₀ d₁ d₂ s st em eb = record {
    req = st.req;
    same_bytes = st.same_bytes;
    b = st.b;
    verified = st.verified;
    others = λ k e. let (h1, h2) = st.others k e in (ap (lookup k) em ∙ h1, ap (lookup k) eb ∙ h2);
  }

  pub both :
      (d₀ d₁ d₂ : Disk) (s : Str)
      → OthersKept s d₀ d₁
      → Stored env bytes d₁ d₂ s
      → Stored env bytes d₀ d₂ s
  both d₀ d₁ d₂ s h st = record {
    req = st.req;
    same_bytes = st.same_bytes;
    b = st.b;
    verified = st.verified;
    others = λ k e. let (h1, h2) = st.others k e in let (k1, k2) = h k e in (h1 ∙ k1, h2 ∙ k2);
  }

  module _ (req : AddRequest) (same_bytes : req.bundle_bytes ≡ bytes) where
    pub stored :
        (d d' : Disk) (s : Str) (b : EnrollmentBundle)
        → Verified env req s b
        → OthersKept s d d'
        → Stored env bytes d d' s
    stored d d' s b v o = record {
      req = req;
      same_bytes = same_bytes;
      b = b;
      verified = v;
      others = o;
    }

    pub landed :
        (d d' : Disk) (i : Info)
        → AddSpec env req d (ok i) d'
        → Landed d d' i.slug × (d'.active ≡ d.active)
    landed d d' i (b, (v, ((o, a), (hb, hm)))) =
        ((stored d d' i.slug b v o, hb ∙ ap some same_bytes), a)

    pub kept : (d d' : Disk) (e : StoreError) → AddSpec env req d (err e) d' → Kept d d'
    kept d d' e (inl u) = inl u
    kept d d' e (inr (s, (b, (v, (o, a))))) = inr (s, (stored d d' s b v o, a))
