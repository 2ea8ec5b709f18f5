-- ===== src/Gateway/Tty/Examples.antt =====
-- Floating point on the samples alone, a block of samples, and arguments.
use ras.Base.{
  ℕ, ◌+◌, ◌*◌, ◌/◌, ◌%◌, ◌≡◌, refl, true, false, inl, List, [], ◌∷◌, ◌==◌, get_or, arith,
}
use ras.Yate.{alaw_slin_init}
use ras.Yate.Float.{Float, Exact}
use ras.Gateway.Tty.{Tty, samples_for_modem, handle_sample_buffer, arguments}
use ras.Gateway.Tty.Lossless.{handle_sample_buffer-lossless}
use ras.Gateway.Tty.Arguments.{arguments_alike}

-- A number stands for its sample.
abbrev plain : Float
plain = record {
  F = ℕ;
  quotient = λ x. x;
  product = λ f. f;
  at_least_32767 = λ f. f == 32767;
  at_most_minus_32768 = λ f. f == 32768;
  lrint = λ f. f;
  octets = λ f. (f % 256) ∷ (f / 256) ∷ 0 ∷ 0 ∷ [];
  number = λ os. get_or os 0 0 + get_or os 1 0 * 256;
}

plain-Exact : Exact plain
plain-Exact = record {
  above = λ x h. refl;
  below = λ x h. refl;
  rounds = λ x h. refl;
  zeros = refl;
  size = λ f. refl;
  kept = λ f. omega arith;
}

abbrev calling : Tty
calling = record {
  s2a = 0 ∷ [];
  modem_samples = [];
  modem_text = [];
  telnet_text = [];
  telnet = true;
  read_enabled = true;
  tcp_disconnected = false;
  force_exit_timer = false;
}

handle_sample_buffer-lossless_example :
    handle_sample_buffer plain
      (samples_for_modem plain (0x12 ∷ 0xff ∷ []))
      (0x12 ∷ 0xff ∷ 0x2a ∷ [])
      calling
    ≡ (
      record calling {
        s2a = alaw_slin_init;
        modem_samples = samples_for_modem plain (0x12 ∷ 0xff ∷ 0x2a ∷ []);
      },
      0x12 ∷ 0xff ∷ 0xd5 ∷ [],
    )
handle_sample_buffer-lossless_example =
    handle_sample_buffer-lossless plain plain-Exact (0x12 ∷ 0xff ∷ []) (0x2a ∷ []) calling
      (inl refl) (omega arith, (omega arith, tt))

abbrev digits : List ℕ → ℕ
digits [] = 0
digits (c ∷ cs) = c

arguments_alike_example :
    arguments digits ([] ∷ ((b'h' ∷ 0x20 ∷ 50 ∷ []) ∷ []))
    ≡ arguments digits ([] ∷ ((b'h' ∷ []) ∷ ((50 ∷ []) ∷ [])))
arguments_alike_example = arguments_alike digits [] (b'h' ∷ []) (50 ∷ []) ((λ p. omega arith), tt)
