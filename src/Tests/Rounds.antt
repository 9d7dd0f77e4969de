-- ===== src/Tests/Rounds.antt =====
-- The readers on bytes that are no Avro data: a count of items that the file does not have.
use fastavro.Prelude.{[], ◌∷◌, none}
use fastavro.Python.Errors.InRounds.{InRounds}
use fastavro.Context.{default_read_options}
use fastavro.Read.Data.{read_data, skip_data}
use fastavro.Rounds.Shrinks.{Bounded}
use fastavro.Rounds.Skip.{skip_data-Bounded}
use fastavro.Rounds.Values.{ContextInRounds, decode-InRounds}
use fastavro.Rounds.Read.{read_data-Bounded}
use fastavro.Tests.Samples.{node, read_context}

read_context_InRounds : ContextInRounds read_context
unfolding InRounds
read_context_InRounds = (((λ s. tt), (λ s digits e. tt)), (λ lt. tt))

read_data-Bounded_example :
    Bounded 3 (read_data 9 read_context default_read_options node none (14 ∷ 9 ∷ 255 ∷ []))
read_data-Bounded_example =
    read_data-Bounded 9 read_context default_read_options node none (14 ∷ 9 ∷ 255 ∷ [])
      read_context_InRounds decode-InRounds

skip_data-Bounded_example : Bounded 3 (skip_data 9 [] node (14 ∷ 9 ∷ 255 ∷ []))
skip_data-Bounded_example = skip_data-Bounded 9 [] node (14 ∷ 9 ∷ 255 ∷ [])
