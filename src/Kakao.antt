-- ===== src/Kakao.antt =====
-- features/experience_map/kakao: a turn that came in by KakaoTalk. The store keeps its state in
-- `ai_kakao_turn`, the service runs it, sends one callback and settles the user's quota.
pub mod Rows
pub mod Store
pub mod Callback
pub mod Turn
pub mod Settle
pub mod Laws
