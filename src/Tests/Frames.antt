-- ===== src/Tests/Frames.antt =====
-- src/telnet.rs and src/terminal_dimensions.rs on concrete input.
use ax_ssh.Prelude.{◌≡◌, refl, [], ◌∷◌, ◌++◌}
use ax_ssh.TerminalDimensions.{model, backend}
use ax_ssh.TerminalDimensions.Bounds.{
  IsModelSize, model-IsModelSize, validate_backend_size_iff, IsBackendSize,
}
use ax_ssh.TerminalDimensions.{
  accepted, validate_backend_size, model_with_pixels, backend_with_pixels,
}
use ax_ssh.Prelude.{◌↔◌, ◌≤◌}
use ax_ssh.Telnet.{Bytes, rfc854}
use ax_ssh.Telnet.Frames.{parser, literal_data, received, receive}
use ax_ssh.Telnet.Frames.Items.{items_all}
use ax_ssh.Telnet.Frames.Chunks.{receive_chunks}

-- "hi", an escaped 255, and the first byte of IAC DO.
abbrev greeting : Bytes
greeting = 104 ∷ 105 ∷ 255 ∷ 255 ∷ 255 ∷ []

-- The rest of IAC DO ECHO, and a "k".
abbrev answer : Bytes
answer = 253 ∷ 1 ∷ 107 ∷ []

abbrev nothing : Bytes
nothing = []

abbrev waiting : Bytes
waiting = 255 ∷ []

receive-greeting :
    receive rfc854 [] greeting
    ≡ received (parser (104 ∷ 105 ∷ []) ∷ literal_data (255 ∷ []) ∷ []) (255 ∷ [])
unfolding receive
receive-greeting = refl

receive-answer :
    receive rfc854 (255 ∷ []) answer
    ≡ received (parser (255 ∷ 253 ∷ 1 ∷ []) ∷ parser (107 ∷ []) ∷ []) []
unfolding receive
receive-answer = refl

receive_both :
    receive rfc854 [] (greeting ++ answer)
    ≡ received
        (parser (104 ∷ 105 ∷ [])
          ∷ literal_data (255 ∷ [])
          ∷ parser (255 ∷ 253 ∷ 1 ∷ [])
          ∷ parser (107 ∷ [])
          ∷ [])
        []
unfolding receive
receive_both = refl

receive_chunks_example :
    (items_all rfc854 (
        parser (104 ∷ 105 ∷ [])
        ∷ literal_data (255 ∷ [])
        ∷ parser (255 ∷ 253 ∷ 1 ∷ [])
        ∷ parser (107 ∷ [])
        ∷ [])
      ≡ items_all rfc854 (parser (104 ∷ 105 ∷ []) ∷ literal_data (255 ∷ []) ∷ [])
        ++ items_all rfc854 (parser (255 ∷ 253 ∷ 1 ∷ []) ∷ parser (107 ∷ []) ∷ []))
    × (nothing ≡ nothing)
receive_chunks_example =
    receive_chunks rfc854 [] greeting answer _ _ _ (255 ∷ []) [] [] receive-greeting receive-answer
      receive_both

model-IsModelSize_example :
    IsModelSize (model 0 1000)
    × IsModelSize (model_with_pixels 0 1000 8 16)
    × (backend (model 0 1000).columns (model 0 1000).rows ≡ model 0 1000)
model-IsModelSize_example = model-IsModelSize 0 1000 8 16

validate_backend_size_iff_example :
    ((validate_backend_size 0 40 ≡ accepted) ↔ (((1 ≤ 0) × (0 ≤ 300)) × ((1 ≤ 40) × (40 ≤ 100))))
    × ((validate_backend_size 0 40 ≡ accepted)
        ↔ (((backend 0 40).columns ≡ 0) × ((backend 0 40).rows ≡ 40)))
    × IsBackendSize (backend 0 40)
    × IsBackendSize (backend_with_pixels 0 40 8 16)
validate_backend_size_iff_example = validate_backend_size_iff 0 40 8 16
