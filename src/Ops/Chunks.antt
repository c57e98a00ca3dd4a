-- ===== src/Ops/Chunks.antt =====
-- inferencesim/ops.py: the flops of the attention of a prompt, prefilled whole and in chunks.
use inferencesim.Prelude.{
  ℕ, ◌+◌, ◌*◌, ◌≡◌, refl, ap, sym, ◌∙◌, Bool, true, false, List, [], ◌∷◌, Option, none, some, sum,
  All, arith, ◌>>=◌, if◌then◌else◌, is_empty,
}
use inferencesim.Workload.Model.{ModelSpec, Deployment, n_swa_layers}
use inferencesim.Ops.{Fraction, cp_width, validate_deployment}
use inferencesim.Ops.Lower.{
  Op, Routing, Category, attention_work, whole, halves, kv_attention, attention, attention_of,
  attention_ops, linear,
}
use inferencesim.Ops.Passes.{layer_ops, prefill_ops, prefill_chunk_ops}

abbrev scores : Category → Bool
scores attention_work = true
scores _ = false

-- The operation of a pass that is attention.
abbrev pub attention_in : List Op → Option Op
attention_in [] = none
attention_in (op ∷ ops) = if scores op.category then some op else attention_in ops

abbrev over_of : Option Op → ℕ
over_of none = 0
over_of (some op) = op.count * op.flops.over

abbrev under_of : Option Op → ℕ
under_of none = 0
under_of (some op) = op.flops.under

-- The flops of the attention of a pass, over all its instances, as a numerator and a denominator.
abbrev pub attention_over : Option (List Op) → ℕ
attention_over o = over_of (o >>= attention_in)

abbrev pub attention_under : Option (List Op) → ℕ
attention_under o = under_of (o >>= attention_in)

module _ (r : Routing) (m : ModelSpec) (dep : Deployment) where
  -- The passes over the chunks of a prompt, of which `prior` tokens are cached; the last one has the
  -- logits.
  abbrev pub chunk_passes : ℕ → List ℕ → List (Option (List Op))
  chunk_passes prior [] = []
  chunk_passes prior (c ∷ cs) =
      prefill_chunk_ops r m dep c prior (is_empty cs) ∷ chunk_passes (prior + c) cs

  module _ (valid : Deployment) (v : validate_deployment m dep ≡ some valid)
      (no_latents : m.mla ≡ none) (no_windows : n_swa_layers m ≡ 0) where
    unwindowed :
        (n q : ℕ) (kv : Fraction) (new : Bool)
        → attention_of none m (whole n) q kv new dep m.n_layers (cp_width m dep)
          ≡ attention m (whole n) q kv new dep m.n_layers (cp_width m dep) ∷ []
    unfolding attention_of
    unwindowed n q kv new = rw no_windows refl

    one_attention :
        (n q : ℕ) (kv : Fraction) (new : Bool)
        → attention_ops m (whole n) q kv new dep m.n_layers (cp_width m dep)
          ≡ attention m (whole n) q kv new dep m.n_layers (cp_width m dep) ∷ []
    unfolding attention_ops
    one_attention n q kv new =
        ap (λ o. attention_of o m (whole n) q kv new dep m.n_layers (cp_width m dep)) no_latents
        ∙ unwindowed n q kv new

    attention_in-chunk :
        (chunk prior : ℕ) (logits : Bool)
        → (prefill_chunk_ops r m dep chunk prior logits >>= attention_in)
          ≡ some (
              attention m
                (whole 1)
                chunk
                (whole (prior + chunk))
                false
                dep
                m.n_layers
                (cp_width m dep))
    unfolding prefill_chunk_ops layer_ops linear attention kv_attention
    attention_in-chunk chunk prior logits =
        rw (v, one_attention 1 chunk (whole (prior + chunk)) false) refl

    attention_in-prefill :
        (n : ℕ)
        → (prefill_ops r m n dep >>= attention_in)
          ≡ some (attention m (whole 1) n (whole n) true dep m.n_layers (cp_width m dep))
    unfolding prefill_ops layer_ops linear attention kv_attention
    attention_in-prefill n = rw (v, one_attention 1 n (whole n) true) refl

    over-chunk :
        (chunk prior : ℕ) (logits : Bool)
        → attention_over (prefill_chunk_ops r m dep chunk prior logits)
          ≡ m.n_layers * (m.n_heads * 2 * (2 * chunk * (prior + chunk)) * m.d_head)
    unfolding attention kv_attention halves whole
    over-chunk chunk prior logits = ap over_of (attention_in-chunk chunk prior logits) ∙ omega arith

    over-prefill :
        (n : ℕ)
        → attention_over (prefill_ops r m n dep) ≡ m.n_layers * (m.n_heads * 2 * (n * n) * m.d_head)
    unfolding attention kv_attention halves whole
    over-prefill n = ap over_of (attention_in-prefill n) ∙ omega arith

    under-chunk :
        (chunk prior n : ℕ) (logits : Bool)
        → attention_under (prefill_chunk_ops r m dep chunk prior logits)
          ≡ attention_under (prefill_ops r m n dep)
    unfolding attention kv_attention whole
    under-chunk chunk prior n logits =
        ap under_of (attention_in-chunk chunk prior logits)
        ∙ sym (ap under_of (attention_in-prefill n))

    chunks_from :
        (prior : ℕ) (cs : List ℕ)
        → let s = prior + sum (λ c. c) cs in
          sum attention_over (chunk_passes prior cs)
            + m.n_layers * (m.n_heads * 2 * (prior * prior) * m.d_head)
          ≡ m.n_layers * (m.n_heads * 2 * (s * s) * m.d_head)
            + m.n_layers * (m.n_heads * 2 * sum (λ c. c * c) cs * m.d_head)
    chunks_from prior [] = omega arith
    chunks_from prior (c ∷ cs) =
        omega (arith, chunks_from (prior + c) cs, over-chunk c prior (is_empty cs))

    unders :
        (n prior : ℕ) (cs : List ℕ)
        → All
            (λ o. attention_under o ≡ attention_under (prefill_ops r m n dep))
            (chunk_passes prior cs)
    unders n prior [] = tt
    unders n prior (c ∷ cs) = (under-chunk c prior n (is_empty cs), unders n (prior + c) cs)

-- For a model without windows and latents on a valid deployment, the passes of a prefill in chunks of any
-- sizes do together the attention flops of the prefill of the whole prompt, and beyond them, in each
-- layer, those of the square of each chunk, all over the same denominator.
pub attention-chunked :
    (r : Routing) (m : ModelSpec) (dep valid : Deployment) (cs : List ℕ)
    → validate_deployment m dep ≡ some valid
    → m.mla ≡ none
    → n_swa_layers m ≡ 0
    → let whole_prompt = prefill_ops r m (sum (λ c. c) cs) dep in
      (sum attention_over (chunk_passes r m dep 0 cs)
        ≡ attention_over whole_prompt
          + m.n_layers * (m.n_heads * 2 * sum (λ c. c * c) cs * m.d_head))
      × All (λ o. attention_under o ≡ attention_under whole_prompt) (chunk_passes r m dep 0 cs)
attention-chunked r m dep valid cs v a w = (
  omega (
    arith,
    chunks_from r m dep valid v a w 0 cs,
    over-prefill r m dep valid v a w (sum (λ c. c) cs),
  ),
  unders r m dep valid v a w (sum (λ c. c) cs) 0 cs,
)
