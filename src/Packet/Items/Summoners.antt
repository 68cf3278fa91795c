-- ===== src/Packet/Items/Summoners.antt =====
-- The parsers of the summoners of pets read their fields.
use hyperbot.Prelude.{
  ℕ, Bool, true, false, Option, none, some, List, ◌∷◌, ◌++◌, map, ◌==◌, if◌then◌else◌,
}
use hyperbot.Item.{CosJob, CosFields, inactive}
use hyperbot.Packet.{Field, number, Streams, IsFifo, ◌>>=◌, pure, read}
use hyperbot.Packet.Decoding.{
  Decodes, Decodes->>=, Decodes-pure, read->>=, read_characters-Decodes, repeat-map,
}
use hyperbot.Packet.Items.{
  cos_life_state, cos_summoner, parse_counted, parse_job, parse_rent_end, parse_summoned,
  parse_item_cos_summoner,
}
use hyperbot.Packet.Items.Encoding.{
  job_fields, state_number, rent_end_fields, summoned_fields, cos_fields, fill_job, fill_cos,
}

-- Both classes of summoners: one has seconds, the other has none.
pub data SameSpecial : Option ℕ → Option ℕ → Type 0 where
  neither : SameSpecial none none
  both : {s s' : ℕ} → SameSpecial (some s) (some s')

module _ (S : Streams) (fifo : IsFifo S) where
  job_data :
      (rated : Bool) (blank j : CosJob) (rest : List Field)
      → Decodes S
          (if rated
            then (read S 4 >>= λ data1. read S 1 >>= λ data2. pure (record {
              category = j.category;
              job_id = j.job_id;
              time_to_keep = j.time_to_keep;
              data1 = data1;
              data2 = data2;
            }))
            else pure (record blank {
              category = j.category;
              job_id = j.job_id;
              time_to_keep = j.time_to_keep;
            }))
          (if rated then number 4 j.data1 ∷ number 1 j.data2 ∷ rest else rest)
          (if rated then j else record blank {
            category = j.category;
            job_id = j.job_id;
            time_to_keep = j.time_to_keep;
          })
          rest
  job_data true blank j rest = read->>= S fifo _ (read->>= S fifo _ (Decodes-pure S))
  job_data false blank j rest = Decodes-pure S

  job-Decodes :
      (blank j : CosJob) (rest : List Field)
      → Decodes S (parse_job S blank) (job_fields j rest) (fill_job blank j) rest
  unfolding parse_job
  job-Decodes blank j rest =
      read->>= S fifo _
        (read->>= S fifo _ (read->>= S fifo _ (job_data (j.category == 5) blank j rest)))

  rent_end-Decodes :
      {special special' : Option ℕ} {rest : List Field}
      → SameSpecial special special'
      → Decodes S (parse_rent_end S special) (rent_end_fields special' rest) special' rest
  unfolding parse_rent_end
  rent_end-Decodes neither = Decodes-pure S
  rent_end-Decodes both = read->>= S fifo _ (Decodes-pure S)

  summoned-Decodes :
      (blank_job : CosJob) (blank c : CosFields) (special special' : Option ℕ) (rest : List Field)
      → SameSpecial special special'
      → Decodes S
          (parse_summoned S blank_job special blank)
          (summoned_fields special' c rest)
          (
            special',
            record blank {
              ref_obj_id = c.ref_obj_id;
              name = c.name;
              jobs = blank.jobs ++ map (fill_job blank_job) c.jobs;
            },
          )
          rest
  unfolding parse_summoned parse_counted
  summoned-Decodes blank_job blank c special special' rest same = read->>= S fifo _ (
      read->>= S fifo _ (
        Decodes->>= S _ (read_characters-Decodes S fifo) (
          Decodes->>= S _ (rent_end-Decodes same) (
            Decodes->>= S _
              (read->>= S fifo _ (repeat-map S (fill_job blank_job) (job-Decodes blank_job) c.jobs))
              (Decodes-pure S)))))

  cos_if :
      (asleep : Bool) (blank_job : CosJob) (blank c : CosFields) (special special' : Option ℕ)
      (rest : List Field)
      → SameSpecial special special'
      → Decodes S
          (if asleep
            then pure (special, record blank { life_state = inactive })
            else parse_summoned S blank_job special
                (record blank { life_state = cos_life_state (state_number c.life_state) }))
          (if asleep then rest else summoned_fields special' c rest)
          (if asleep then (special, record blank { life_state = inactive }) else (
            special',
            record c {
              life_state = cos_life_state (state_number c.life_state);
              jobs = blank.jobs ++ map (fill_job blank_job) c.jobs;
            },
          ))
          rest
  cos_if true blank_job blank c special special' rest same = Decodes-pure S
  cos_if false blank_job blank c special special' rest same =
      summoned-Decodes blank_job
        (record blank { life_state = cos_life_state (state_number c.life_state) }) c special
        special' rest same

  pub cos-Decodes :
      (blank_job : CosJob) (blank c : CosFields) (special special' : Option ℕ) (rest : List Field)
      → SameSpecial special special'
      → Decodes S
          (parse_item_cos_summoner S blank_job special blank >>= λ c'. pure (cos_summoner c'))
          (cos_fields special' c rest)
          (cos_summoner (fill_cos blank_job (special, blank) (special', c)))
          rest
  unfolding parse_item_cos_summoner
  cos-Decodes blank_job blank c special special' rest same =
      Decodes->>= S _
        (read->>= S fifo _
          (cos_if (state_number c.life_state == 1) blank_job blank c special special' rest same))
        (Decodes-pure S)
