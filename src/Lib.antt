-- ===== src/Lib.antt =====
-- The web and the mobile client of the reference wallet: what their dialogs and screens do, what they
-- ask of the backend, and how they read and show amounts and links.
--
-- The web client is a set of React components under frontend/src, and the mobile client one of React
-- Native screens under mobile/src. A component keeps a state, shows a view of it, and reacts to events:
-- the user's presses, and the ends of the calls that it awaits. All calls go through the class
-- `BackendClient` of the client's own services/backendClient.ts.
--
-- Base holds the shared names, the Boolean tests, the lists and the texts.
-- Amount is frontend/src/utils/amount-precision.ts, function by function (`diemAmountFromFloat` is
--   `diem_amount_from_float`); Amount/Text holds the parts of the language's library that it calls.
-- Payment/Params is frontend/src/utils/payment-params.ts; Payment/Dialog is the page
--   frontend/src/components/PaymentConfirmation.tsx and the dialog PaymentConfirmationModal.tsx.
-- Backend is frontend/src/services: Http holds what the methods share, User, Account, Admin and Offchain
--   the methods. A method is the request that it sends and what it makes of the reply; `settleDebts` and
--   `createAdminUser`, which do more, are functions over a server.
-- Transfer is frontend/src/components/Transfer: Machine holds the reducer's interface, the effect, the
--   view and the events that Withdraw.tsx, Deposit.tsx and Convert.tsx share; Withdraw, Deposit and
--   Convert hold the data, the reducers and the calls, and fill the interface.
-- Send is frontend/src/components/Send: Intents the links, Form the rules of the form, Modal the dialog.
-- Fields holds the fields for an amount and its price that SendForm.tsx and the three forms of Transfer
--   share, and Transfer/Rules the rules of the latter.
-- Verify is the wizard of frontend/src/pages/Verify.tsx, with the rules of its forms in Verify/Forms.
--   Options is utils/dropdown-options.ts. Session is utils/auth-routes.tsx, the form of pages/Signin.tsx
--   and the end of a session in App.tsx, with the account for demonstrations in Session/Demo. App is
--   App.tsx: its two effects, the settings that they write and the currency objects that all settings
--   share, with its routes in App/Routes; Rates is its merging of exchange rates into those objects.
--   Balances is components/TotalBalance.tsx, Balance.tsx and BalancesList.tsx, Transactions
--   TransactionsList.tsx, TransactionModal.tsx and ExplorerLink.tsx.
-- Approval is the three dialogs of components/FundsPullPreApproval, with the lists of
--   pages/FundsPullPreApprovals.tsx in Approval/Sections, FundsPullPreApprovalsList.tsx in
--   Approval/Listed and ApprovalDetails.tsx in Approval/Details. Receive is components/ReceiveModal.tsx.
--   Auth is pages/Signup.tsx, ForgotPassword.tsx and ResetPassword.tsx. Settings is pages/Settings.tsx,
--   with the forms of components/Settings in Settings/Forms. Admin is pages/admin/Admins.tsx with
--   components/admin/NewAdmin.tsx, Admin/Liquidity pages/admin/Liquidity.tsx, and Admin/Users
--   pages/admin/Users.tsx with components/UsersList.tsx and ConfirmationModal.tsx.
-- Poll holds the loops that refresh a list, of pages/Transactions.tsx, Home.tsx, Account.tsx and
--   FundsPullPreApprovals.tsx and of mobile/src/screens/Transactions.tsx and Home.tsx.
-- Mobile is mobile/src: Client its services/backendClient.ts, Amount its utils/amount-precision.ts,
--   Rules what the forms demand of an amount, with the language's `Number` in Number, Review the screen
--   that asks for confirmation, with the buttons of components/AppHeader.tsx over it, Transfer the
--   screens under screens/Transfer, Send those under screens/Send, Auth the screens for signing in, for
--   a new account and for a new password, Verify the wizard of screens/Verify.tsx, Receive and Settings
--   the screens of these names, Contexts the providers under contexts, which load the user, the account
--   and the rates, and Transactions the list and the screen of transactions.
--
-- A state is a record, and `step` takes it through one event; an event that the view does not offer
-- changes nothing. What a call awaits is an entry of the state, which settles by an event of its own, so
-- that any order of presses and replies is a list of events. A call whose mobile review has been left
-- stays in the state (`abandoned`). Histories of the calls (`executed`, `asked`, `submitted`) are kept
-- beside the source's state and are read by no operation.
--
-- Numbers are natural numbers, and a number with decimals is a fraction of two: the amounts of forms and
-- balances are not negative, and the rounding of IEEE doubles is left out. The amount and the date that
-- a payment link carries may be negative, and have types of their own (`Number` and `Timestamp` of
-- Payment/Params). The locale of `toLocaleString` is en-US. Two functions run on fuel: the printing of a
-- number on one more than the number, which is more than its digits, and the redirections of App/Routes
-- on three steps, which are enough for any location. The loop that polls for payment details runs over
-- the list of the replies.
--
-- Parameters of the model are the server behind `BackendClient`, the browser's URL and date functions
-- with the package uuid (the record `Browser`), `decodeURIComponent`, the names that the package faker
-- makes up, the matching of paths by react-router, and the reading of dates by moment. The rules of a
-- form are what react-hook-form checks before it calls `onSubmit`.
--
-- On the mobile screens, whether a button of react-native-elements that shows that it is loading passes
-- a press on, and react-hook-form's rule `min` on a text, are parameters too.
--
-- Not modelled: the unmount of a dialog while a call is awaited, the system's own ways to leave a mobile
-- screen (those of the header are modelled), texts, dates and layout, the order of the balances in
-- App.tsx (the language leaves open what its comparison sorts to), the chooser of a transfer, the menus,
-- and the backend, which is written in Python.
pub mod Base
pub mod Amount
pub mod Payment
pub mod Backend
pub mod Transfer
pub mod Send
pub mod Verify
pub mod Options
pub mod Session
pub mod Approval
pub mod Fields
pub mod Poll
pub mod Rates
pub mod Auth
pub mod Admin
pub mod Receive
pub mod Settings
pub mod App
pub mod Balances
pub mod Transactions
pub mod Mobile
