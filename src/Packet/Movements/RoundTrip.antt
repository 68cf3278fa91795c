-- ===== src/Packet/Movements/RoundTrip.antt =====
-- The parser of inventory operations reads every report of the server.
use hyperbot.Prelude.{arith, ℕ, false, ◌≡◌, refl, Option, none, some, List, [], ◌∷◌, ◌==◌, ok}
use hyperbot.Item.{ItemInfo, CosJob, Fresh}
use hyperbot.PacketProcessor.{ItemMovement, success, failure}
use hyperbot.Packet.{Field, number, Fits, Streams, written, IsFifo, Parser}
use hyperbot.Packet.Decoding.{Decodes, Decodes->>=, Decodes-pure, Decodes-value, read_into-Decodes}
use hyperbot.Packet.Items.{RentInfo}
use hyperbot.Packet.Movements.{
  Movement, parse_movements, OperationResponse, parse_operation_response,
}
use hyperbot.Packet.Movements.Handling.{handled_all, received, response_parser}
use hyperbot.Packet.Movements.Reports.{Report, meaning, report_fields}
use hyperbot.Packet.Movements.Understanding.{report-Understood}

module _ (S : Streams) (fifo : IsFifo S) (fresh : Fresh) (blank_rent : RentInfo)
    (blank_job : CosJob) (item_data : ℕ → Option ItemInfo) (blank : Movement) where
  abbrev movements_parser : Parser S.Stream (List Movement)
  movements_parser = parse_movements S fresh blank_rent blank_job item_data blank

  abbrev operation_parser : OperationResponse → Parser S.Stream OperationResponse
  operation_parser old = parse_operation_response S fresh blank_rent blank_job item_data old blank

  succeeded :
      (old : OperationResponse) {fields rest : List Field} {ms : List Movement}
      → Decodes S movements_parser fields ms rest
      → Decodes S
          (operation_parser old)
          (number 1 1 ∷ fields)
          (record { result = 1; error_code = old.error_code; item_movements = ms })
          rest
  unfolding parse_operation_response
  succeeded old h =
      Decodes->>= S _ (read_into-Decodes S fifo old.result) (Decodes->>= S _ h (Decodes-pure S))

  failed :
      (old : OperationResponse) (result code : ℕ) (rest : List Field)
      → (result == 1) ≡ false
      → Decodes S
          (operation_parser old)
          (number 1 result ∷ number 2 code ∷ rest)
          (record { result = result; error_code = code; item_movements = [] })
          rest
  unfolding parse_operation_response
  failed old result code rest no_success =
      Decodes->>= S _ {mid = number 2 code ∷ rest} {a = result}
        (read_into-Decodes S fifo old.result)
        (rw (no_success)
          (Decodes->>= S _ (read_into-Decodes S fifo old.error_code) (Decodes-pure S)))

  success-received :
      (ms : List Movement) (code : ℕ) {xs : List ItemMovement}
      → handled_all ms ≡ some xs
      → received (record { result = 1; error_code = code; item_movements = ms }) ≡ some (success xs)
  unfolding received
  success-received ms code h = rw (h) refl

  failure-received :
      (result code : ℕ)
      → (result == 1) ≡ false
      → received (record { result = result; error_code = code; item_movements = [] })
        ≡ some (failure code)
  unfolding received
  failure-received result code h = rw (h) refl

  pub success-Decodes :
      (old : OperationResponse) (r : Report fresh blank_job item_data) (rest : List Field)
      → blank.new_item ≡ none
      → Decodes S
          (response_parser S fresh blank_rent blank_job item_data blank old)
          (number 1 1 ∷ report_fields fresh blank_job item_data r rest)
          (some (success (meaning fresh blank_job item_data r)))
          rest
  success-Decodes old r rest null =
      let u = report-Understood S fifo fresh blank_rent blank_job item_data blank r rest null in
      Decodes->>= S _ (succeeded old u.reads)
        (Decodes-value S (success-received u.movements old.error_code u.handles) (Decodes-pure S))

  failure-Decodes :
      (old : OperationResponse) (result code : ℕ) (rest : List Field)
      → (result == 1) ≡ false
      → Decodes S
          (response_parser S fresh blank_rent blank_job item_data blank old)
          (number 1 result ∷ number 2 code ∷ rest)
          (some (failure code))
          rest
  failure-Decodes old result code rest no_success =
      Decodes->>= S _ (failed old result code rest no_success)
        (Decodes-value S (failure-received result code no_success) (Decodes-pure S))

  -- Let the stream be first in, first out, and let a parsed movement have no item before. Then the parser
  -- reads each report of the server (with its forced movements, items, rents and owners) that fits, after
  -- the number of a success, to its end, and the handler takes it for the movements that the report means.
  -- After any other number it reads the error code, which the handler reports.
  pub received-parse_operation_response :
      (old : OperationResponse) (r : Report fresh blank_job item_data) (result code : ℕ)
      → blank.new_item ≡ none
      → Fits (report_fields fresh blank_job item_data r [])
      → Fits (number 1 result ∷ number 2 code ∷ [])
      → (result == 1) ≡ false
      → (response_parser S fresh blank_rent blank_job item_data blank old
            (written S (number 1 1 ∷ report_fields fresh blank_job item_data r []))
          ≡ ok (some (success (meaning fresh blank_job item_data r)), written S []))
        × (response_parser S fresh blank_rent blank_job item_data blank old
              (written S (number 1 result ∷ number 2 code ∷ []))
            ≡ ok (some (failure code), written S []))
  received-parse_operation_response old r result code null fits fits' no_success = (
    (success-Decodes old r [] null).reads (omega arith, fits),
    (failure-Decodes old result code [] no_success).reads fits',
  )
