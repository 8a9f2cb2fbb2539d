-- ===== src/Model/Effects.antt =====
-- types_message.go: the send effects and text formats.
use advanced_imessage_go.Prelude.Text.{GoString, bytes}

abbrev pub MessageEffect : Type 0
MessageEffect = GoString

abbrev pub effect_slam : MessageEffect
effect_slam = bytes "com.apple.MobileSMS.expressivesend.impact"

abbrev pub effect_loud : MessageEffect
effect_loud = bytes "com.apple.MobileSMS.expressivesend.loud"

abbrev pub effect_gentle : MessageEffect
effect_gentle = bytes "com.apple.MobileSMS.expressivesend.gentle"

abbrev pub effect_invisible : MessageEffect
effect_invisible = bytes "com.apple.MobileSMS.expressivesend.invisibleink"

abbrev pub effect_confetti : MessageEffect
effect_confetti = bytes "com.apple.messages.effect.CKConfettiEffect"

abbrev pub effect_fireworks : MessageEffect
effect_fireworks = bytes "com.apple.messages.effect.CKFireworksEffect"

abbrev pub effect_balloons : MessageEffect
effect_balloons = bytes "com.apple.messages.effect.CKBalloonEffect"

abbrev pub effect_heart : MessageEffect
effect_heart = bytes "com.apple.messages.effect.CKHeartEffect"

abbrev pub effect_lasers : MessageEffect
effect_lasers = bytes "com.apple.messages.effect.CKLasersEffect"

abbrev pub effect_celebration : MessageEffect
effect_celebration = bytes "com.apple.messages.effect.CKHappyBirthdayEffect"

abbrev pub effect_sparkles : MessageEffect
effect_sparkles = bytes "com.apple.messages.effect.CKSparklesEffect"

abbrev pub effect_spotlight : MessageEffect
effect_spotlight = bytes "com.apple.messages.effect.CKSpotlightEffect"

abbrev pub effect_echo : MessageEffect
effect_echo = bytes "com.apple.messages.effect.CKEchoEffect"

abbrev pub TextEffect : Type 0
TextEffect = GoString

abbrev pub text_effect_big : TextEffect
text_effect_big = bytes "big"

abbrev pub text_effect_small : TextEffect
text_effect_small = bytes "small"

abbrev pub text_effect_shake : TextEffect
text_effect_shake = bytes "shake"

abbrev pub text_effect_nod : TextEffect
text_effect_nod = bytes "nod"

abbrev pub text_effect_explode : TextEffect
text_effect_explode = bytes "explode"

abbrev pub text_effect_ripple : TextEffect
text_effect_ripple = bytes "ripple"

abbrev pub text_effect_bloom : TextEffect
text_effect_bloom = bytes "bloom"

abbrev pub text_effect_jitter : TextEffect
text_effect_jitter = bytes "jitter"

abbrev pub TextFormatKind : Type 0
TextFormatKind = GoString

abbrev pub format_bold : TextFormatKind
format_bold = bytes "bold"

abbrev pub format_italic : TextFormatKind
format_italic = bytes "italic"

abbrev pub format_underline : TextFormatKind
format_underline = bytes "underline"

abbrev pub format_strikethrough : TextFormatKind
format_strikethrough = bytes "strikethrough"

abbrev pub format_effect : TextFormatKind
format_effect = bytes "effect"
