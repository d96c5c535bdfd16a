-- ===== src/Report/Subscribe/Configure.antt =====
-- The write mask of `SubscribeReport` in iec61850/iec61850_report.go.
use Prim.Native.Nat.{bit_and}
use go_libiec.Prelude.{ℕ, Bool, true, false, not, some, ◌≡◌, refl, ◌==◌}
use go_libiec.Report.Subscribe.{
  RcbApi, ReportConfig, configure, when, rcb_element_rpt_ena, rcb_element_buf_tm,
  rcb_element_trg_ops, rcb_element_intg_pd, rcb_element_gi,
}

-- The bit of an element in the mask.
abbrev pub has_bit : ℕ → ℕ → Bool
has_bit mask bit = not (bit_and mask bit == 0)

module _ (a : RcbApi) where
  -- The mask with its four conditions as arguments.
  abbrev mask : Bool → Bool → Bool → Bool → (s1 s2 s3 s4 : a.rcb.Rcb → a.rcb.Rcb) → a.rcb.Rcb → ℕ
  mask t i b g s1 s2 s3 s4 rcb =
      (when a g s4 rcb_element_gi (
        when a b s3 rcb_element_buf_tm (
          when a i s2 rcb_element_intg_pd
            (when a t s1 rcb_element_trg_ops (rcb, rcb_element_rpt_ena))))).1

  -- What the mask says.
  abbrev Says : ℕ → Bool → Bool → Bool → Bool → Type 0
  Says m t i b g =
      (has_bit m rcb_element_rpt_ena ≡ true)
      × (has_bit m rcb_element_trg_ops ≡ t)
      × (has_bit m rcb_element_intg_pd ≡ i)
      × (has_bit m rcb_element_buf_tm ≡ b)
      × (has_bit m rcb_element_gi ≡ g)

  mask-Says :
      (t i b g : Bool) (s1 s2 s3 s4 : a.rcb.Rcb → a.rcb.Rcb) (rcb : a.rcb.Rcb)
      → Says (mask t i b g s1 s2 s3 s4 rcb) t i b g
  mask-Says true true true true s1 s2 s3 s4 rcb = (refl, refl, refl, refl, refl)
  mask-Says true true true false s1 s2 s3 s4 rcb = (refl, refl, refl, refl, refl)
  mask-Says true true false true s1 s2 s3 s4 rcb = (refl, refl, refl, refl, refl)
  mask-Says true true false false s1 s2 s3 s4 rcb = (refl, refl, refl, refl, refl)
  mask-Says true false true true s1 s2 s3 s4 rcb = (refl, refl, refl, refl, refl)
  mask-Says true false true false s1 s2 s3 s4 rcb = (refl, refl, refl, refl, refl)
  mask-Says true false false true s1 s2 s3 s4 rcb = (refl, refl, refl, refl, refl)
  mask-Says true false false false s1 s2 s3 s4 rcb = (refl, refl, refl, refl, refl)
  mask-Says false true true true s1 s2 s3 s4 rcb = (refl, refl, refl, refl, refl)
  mask-Says false true true false s1 s2 s3 s4 rcb = (refl, refl, refl, refl, refl)
  mask-Says false true false true s1 s2 s3 s4 rcb = (refl, refl, refl, refl, refl)
  mask-Says false true false false s1 s2 s3 s4 rcb = (refl, refl, refl, refl, refl)
  mask-Says false false true true s1 s2 s3 s4 rcb = (refl, refl, refl, refl, refl)
  mask-Says false false true false s1 s2 s3 s4 rcb = (refl, refl, refl, refl, refl)
  mask-Says false false false true s1 s2 s3 s4 rcb = (refl, refl, refl, refl, refl)
  mask-Says false false false false s1 s2 s3 s4 rcb = (refl, refl, refl, refl, refl)

  -- Every field that the configuration overrides, and no other, is in the mask; `RptEna` always is.
  pub configure-mask :
      (cfg : ReportConfig) (rcb : a.rcb.Rcb)
      → (has_bit (configure a (some cfg) rcb).1 rcb_element_rpt_ena ≡ true)
        × (has_bit (configure a (some cfg) rcb).1 rcb_element_trg_ops ≡ not (cfg.trg_ops == 0))
        × (has_bit (configure a (some cfg) rcb).1 rcb_element_intg_pd ≡ not (cfg.intg_pd == 0))
        × (has_bit (configure a (some cfg) rcb).1 rcb_element_buf_tm ≡ not (cfg.buf_tm == 0))
        × (has_bit (configure a (some cfg) rcb).1 rcb_element_gi ≡ cfg.gi)
  unfolding configure
  configure-mask cfg rcb =
      mask-Says (not (cfg.trg_ops == 0)) (not (cfg.intg_pd == 0)) (not (cfg.buf_tm == 0)) cfg.gi
        (λ r. a.rcb.set_trg_ops r cfg.trg_ops) (λ r. a.rcb.set_intg_pd r cfg.intg_pd)
        (λ r. a.rcb.set_buf_tm r cfg.buf_tm) (λ r. a.rcb.set_gi r true) rcb
