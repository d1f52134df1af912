-- ===== src/Client/Prices.antt =====
-- MODEL_PRICING and calculateCost of src/services/cost-tracking.service.ts, in billionths of a dollar.
use fixor.Prelude.{ℕ, ◌+◌, ◌*◌}
use fixor.Client.{Model, sonnet_4_6, opus_4_7, opus_4_8, haiku_4_5, Usage}

-- Tenths of a dollar per million tokens.
pub record ModelPricing : Type 0 where
  pub input : ℕ
  pub output : ℕ

abbrev model_pricing : Model → ModelPricing
model_pricing sonnet_4_6 = record { input = 30; output = 150 }
model_pricing opus_4_7 = record { input = 150; output = 750 }
model_pricing opus_4_8 = record { input = 50; output = 250 }
model_pricing haiku_4_5 = record { input = 8; output = 40 }

-- A cache write costs 1.25 of an input token, a cache read 0.10.
unfoldable pub calculate_cost : Model → Usage → ℕ
calculate_cost m u =
    u.input_tokens * (model_pricing m).input * 100
    + u.cache_creation_input_tokens * (model_pricing m).input * 125
    + u.cache_read_input_tokens * (model_pricing m).input * 10
    + u.output_tokens * (model_pricing m).output * 100
